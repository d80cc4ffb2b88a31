-- ===== src/Prelude/Results.antt =====
-- Python's exceptions, for functions that only compute and for methods that change an object.
use mathlib.Core.Path.{◌≡◌, refl}
use mathlib.Core.Bool.{Bool, true, false}
use Prim.Native.String.{String}

-- `type(exc).__name__` and `str(exc)`
pub record Exception : Type 0 where
  pub type_name : String
  pub message : String

abbrev pub Done : Type 0
Done = Unit

pub data Result {ℓ} (A : Type ℓ) : Type ℓ where
  err : Exception → Result A
  ok : A → Result A

-- `if c: raise e`
abbrev pub raise_if : Bool → Exception → Result Done
raise_if false e = ok tt
raise_if true e = err e

module _ {ℓ κ} {A : Type ℓ} {B : Type κ} where
  infixl 5 ◌>>=◌ ◌>>◌
  abbrev pub ◌>>=◌ : Result A → (A → Result B) → Result B
  ◌>>=◌ (err e) next = err e
  ◌>>=◌ (ok a) next = next a

  abbrev pub ◌>>◌ : Result A → Result B → Result B
  ◌>>◌ m rest = m >>= (λ _. rest)

  pub >>=-eq-ok :
      (m : Result A) (next : A → Result B) {b : B}
      → (m >>= next) ≡ ok b
      → (a : A) × (m ≡ ok a) × (next a ≡ ok b)
  >>=-eq-ok (err e) next h = cc
  >>=-eq-ok (ok a) next h = (a, refl, h)

abbrev pub IsOk {ℓ} : {A : Type ℓ} → Result A → Type 0
IsOk (err e) = ⊥
IsOk (ok a) = Unit

pub raise_if-eq-ok : (c : Bool) (e : Exception) → raise_if c e ≡ ok tt → c ≡ false
raise_if-eq-ok false e h = refl
raise_if-eq-ok true e h = cc

-- A method that changes an object. What it wrote before a raise stays written, so the object
-- comes back beside the exception too.
abbrev pub Exec : Type 0 → Type 0 → Type 0
Exec S A = S → Result A × S
