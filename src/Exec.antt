-- ===== src/Exec.antt =====
-- Methods of Python objects: a call reads and writes the object and returns or raises. What was
-- written before a raise stays written.
pub mod Keeps
pub mod Returns
use liminal_osai.Prelude.{Bool, true, false, Exception, Result, ok, err, Done, Exec}

module _ {S A : Type 0} where
  abbrev pub pure : A → Exec S A
  pure a s = (ok a, s)

  abbrev pub raise : Exception → Exec S A
  raise e s = (err e, s)

  abbrev pub lift : Result A → Exec S A
  lift r s = (r, s)

abbrev pub get : {S : Type 0} → Exec S S
get s = (ok s, s)

abbrev pub modify : {S : Type 0} → (S → S) → Exec S Done
modify f s = (ok tt, f s)

abbrev pub raise_if : {S : Type 0} → Bool → Exception → Exec S Done
raise_if true e s = (err e, s)
raise_if false e s = (ok tt, s)

module _ {S A B : Type 0} where
  -- the rest of a method, after a call that gave `r`
  abbrev pub continue : Result A → (A → Exec S B) → Exec S B
  continue (ok a) f s = f a s
  continue (err e) f s = (err e, s)

  infixl 5 ◌>>=◌ ◌>>◌
  unfoldable pub ◌>>=◌ : Exec S A → (A → Exec S B) → Exec S B
  ◌>>=◌ m f s = let (r, s') = m s in continue r f s'

  unfoldable pub ◌>>◌ : Exec S A → Exec S B → Exec S B
  unfolding ◌>>=◌
  m >> n = m >>= λ _. n

module _ {S A : Type 0} where
  -- the handler's call, after a body that ended with `r`
  abbrev pub handle : Result A → (Exception → Exec S A) → Exec S A
  handle (ok a) f s = (ok a, s)
  handle (err e) f s = f e s

  -- `try: m  except ...: handler`
  unfoldable pub try_except : Exec S A → (Exception → Exec S A) → Exec S A
  try_except m f s = let (r, s') = m s in handle r f s'

module _ {S A : Type 0} where
  -- `try: m`, where what follows looks at the exception
  unfoldable pub attempt : Exec S A → Exec S (Result A)
  attempt m s = let (r, s') = m s in (ok r, s')
