-- ===== src/Exec/Returns.antt =====
-- What a call that returned has done, part by part.
use liminal_osai.Prelude.{◌≡◌, refl, ap, Bool, true, false, Exception, Result, ok, err, Exec}
use liminal_osai.Exec.{pure, lift, get, modify, raise_if, continue, ◌>>=◌, ◌>>◌}

module _ {S A B : Type 0} where
  -- A sequence that returned: its parts returned.
  pub bind-ok :
      (m : Exec S A) (f : A → Exec S B) (s t : S) (b : B)
      → (m >>= f) s ≡ (ok b, t)
      → (a : A) × (u : S) × (m s ≡ (ok a, u)) × (f a u ≡ (ok b, t))
  unfolding ◌>>=◌
  bind-ok m f s t b h = one (m s) refl h
    where
      one :
          (p : Result A × S)
          → m s ≡ p
          → continue p.0 f p.1 ≡ (ok b, t)
          → (a : A) × (u : S) × (m s ≡ (ok a, u)) × (f a u ≡ (ok b, t))
      one (ok a, u) e k = (a, u, e, k)
      one (err x, u) e k = absurd (let bad : err x ≡ ok b = ap (λ q. q.0) k in cc)

  pub then-ok :
      (m : Exec S A) (n : Exec S B) (s t : S) (b : B)
      → (m >> n) s ≡ (ok b, t)
      → (a : A) × (u : S) × (m s ≡ (ok a, u)) × (n u ≡ (ok b, t))
  unfolding ◌>>◌
  then-ok m n s t b h = bind-ok m (λ _. n) s t b h

module _ {S A : Type 0} where
  pub lift_bind-ok :
      (r : Result A) {B : Type 0} (f : A → Exec S B) (s t : S) (b : B)
      → (lift r >>= f) s ≡ (ok b, t)
      → (a : A) × (r ≡ ok a) × (f a s ≡ (ok b, t))
  unfolding ◌>>=◌
  lift_bind-ok (ok a) f s t b h = (a, refl, h)
  lift_bind-ok (err e) f s t b h = absurd (let bad : err e ≡ ok b = ap (λ q. q.0) h in cc)

  pub lift_then-ok :
      {B : Type 0} (r : Result A) (n : Exec S B) (s t : S) (b : B)
      → (lift r >> n) s ≡ (ok b, t)
      → (a : A) × (r ≡ ok a) × (n s ≡ (ok b, t))
  unfolding ◌>>◌
  lift_then-ok r n s t b h = lift_bind-ok r (λ _. n) s t b h

  pub get_bind-ok :
      (f : S → Exec S A) (s t : S) (a : A) → (get >>= f) s ≡ (ok a, t) → f s s ≡ (ok a, t)
  unfolding ◌>>=◌
  get_bind-ok f s t a h = h

  pub modify_then-ok :
      (g : S → S) (n : Exec S A) (s t : S) (a : A)
      → (modify g >> n) s ≡ (ok a, t)
      → n (g s) ≡ (ok a, t)
  unfolding ◌>>◌ ◌>>=◌
  modify_then-ok g n s t a h = h

  pub raise_if_then-ok :
      (c : Bool) (e : Exception) (n : Exec S A) (s t : S) (a : A)
      → (raise_if c e >> n) s ≡ (ok a, t)
      → (c ≡ false) × (n s ≡ (ok a, t))
  unfolding ◌>>◌ ◌>>=◌
  raise_if_then-ok true e n s t a h = absurd (let bad = ap (λ q. q.0) h in cc)
  raise_if_then-ok false e n s t a h = (refl, h)

  pub pure-ok : (a b : A) (s t : S) → pure a s ≡ (ok b, t) → (a ≡ b) × (s ≡ t)
  pure-ok a b s t h = ((let same : ok a ≡ ok b = ap (λ q. q.0) h in cc), ap (λ q. q.1) h)
