-- ===== src/Prelude/Lists.antt =====
-- Lists over the native numbers, and Python's `in`, `any` and `all` on lists.
use Prim.Native.Nat.{ℕ, suc, ◌+◌}
use mathlib.Core.Path.{◌≡◌, refl, ◌∙◌}
use mathlib.Core.Bool.{Bool, true, false, ◌&&◌, ◌||◌}
use mathlib.Core.Option.{Option, none, some}
use mathlib.Core.List.{List, [], ◌∷◌, ◌++◌}
use native.Mathlib.Omega.{arith}
use text.Mathlib.Text.{◌==◌}
use text.Mathlib.TextEquality.{eq_iff}
use mathlib.Core.Logic.{inl, inr}
use liminal_osai.Prelude.Tests.{Bool-cases}
use Prim.Native.String.{String}

module _ {ℓ} {A : Type ℓ} where
  abbrev pub length : List A → ℕ
  length [] = 0
  length (x ∷ xs) = suc (length xs)

  pub length-append : (xs ys : List A) → length (xs ++ ys) ≡ length xs + length ys
  length-append [] ys = omega arith
  length-append (x ∷ xs) ys = omega (arith, length-append xs ys)

  -- `xs[-1]`, where there is one
  abbrev pub last? : List A → Option A
  last? [] = none
  last? (x ∷ []) = some x
  last? (x ∷ y ∷ xs) = last? (y ∷ xs)

  pub last?-append : (xs : List A) (x : A) → last? (xs ++ x ∷ []) ≡ some x
  last?-append [] x = refl
  last?-append (y ∷ []) x = refl
  last?-append (y ∷ z ∷ xs) x = last?-append (z ∷ xs) x

  abbrev pub any : (A → Bool) → List A → Bool
  any p [] = false
  any p (x ∷ xs) = p x || any p xs

  abbrev pub all : (A → Bool) → List A → Bool
  all p [] = true
  all p (x ∷ xs) = p x && all p xs

  -- a comprehension's `if`
  abbrev pub keep : (A → Bool) → List A → List A
  keep p [] = []
  keep p (x ∷ xs) = let rest = keep p xs in elim (p x) [ true ↦ x ∷ rest | false ↦ rest ]

  abbrev pub is_empty : List A → Bool
  is_empty [] = true
  is_empty (x ∷ xs) = false

abbrev pub All {ℓ κ} : {A : Type ℓ} → (A → Type κ) → List A → Type κ
All P [] = Unit
All P (x ∷ xs) = P x × All P xs

-- `x in xs` on texts
abbrev pub member : String → List String → Bool
member x [] = false
member x (y ∷ ys) = x == y || member x ys

-- `set(xs).issubset(ys)`
abbrev pub is_subset : List String → List String → Bool
is_subset xs ys = all (λ x. member x ys) xs

-- `ground` takes the equality of texts from `eq_iff`.
pub member-subset :
    (a : String) (xs ys : List String)
    → is_subset xs ys ≡ true
    → member a xs ≡ true
    → member a ys ≡ true
member-subset a [] ys s m = absurd (cc)
member-subset a (x ∷ xs) ys s m = elim (Bool-cases (a == x)) [
  | inl same ↦
      let e : a ≡ x = (eq_iff a x).0 same in
      let there : member x ys ≡ true = ground arith in rw e there
  | inr other ↦ member-subset a xs ys (ground arith) (ground arith)
]

pub is_subset_trans :
    (xs ys zs : List String)
    → is_subset xs ys ≡ true
    → is_subset ys zs ≡ true
    → is_subset xs zs ≡ true
is_subset_trans [] ys zs s t = refl
is_subset_trans (x ∷ xs) ys zs s t = ground (arith, member-subset x ys zs, is_subset_trans xs ys zs)

pub ==_trans : (a b c : String) → (a == b) ≡ true → (b == c) ≡ true → (a == c) ≡ true
==_trans a b c p q = (eq_iff a c).1 ((eq_iff a b).0 p ∙ (eq_iff b c).0 q)
