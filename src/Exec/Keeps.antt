-- ===== src/Exec/Keeps.antt =====
-- Invariants of methods: a method keeps `P` if `P` holds after it, returned or raised, wherever it
-- held before. One rule for each way to build a method.
use liminal_osai.Prelude.{
  ◌≡◌, refl, Bool, true, false, Exception, Result, ok, err, Done, Exec, if◌then◌else◌,
}
use liminal_osai.Exec.{
  pure, raise, lift, get, modify, raise_if, continue, ◌>>=◌, ◌>>◌, handle, try_except, attempt,
}

pub record Keeps {S A : Type 0} (P : S → Type 0) (m : Exec S A) : Type 0 where
  pub at : (s : S) → P s → P (m s).1

module _ {S A : Type 0} {P : S → Type 0} where
  pub Keeps-try :
      (m : Exec S A) (f : Exception → Exec S A)
      → Keeps P m
      → ((e : Exception) → Keeps P (f e))
      → Keeps P (try_except m f)
  unfolding try_except
  Keeps-try m f km kf = record { at = λ s h. let (r, s') = m s in caught r s' (km.at s h) }
    where
      caught : (r : Result A) (s : S) → P s → P (handle r f s).1
      caught (ok a) s h = h
      caught (err e) s h = (kf e).at s h

  pub Keeps-attempt : (m : Exec S A) → Keeps P m → Keeps P (attempt m)
  unfolding attempt
  Keeps-attempt m km = record { at = λ s p. km.at s p }

  pub Keeps-lift : (r : Result A) → Keeps {S = S} P (lift r)
  Keeps-lift r = record { at = λ _ same. same }

  pub Keeps-if :
      (c : Bool) (then_part else_part : Exec S A)
      → Keeps P then_part
      → Keeps P else_part
      → Keeps P (if c then then_part else else_part)
  Keeps-if false then_part else_part kept_yes kept_no = kept_no
  Keeps-if true then_part else_part kept_yes kept_no = kept_yes

  pub Keeps-raise : (e : Exception) → Keeps {S = S} {A = A} P (raise e)
  Keeps-raise e = record { at = λ _ same. same }

  pub Keeps-pure : (a : A) → Keeps {S = S} P (pure a)
  Keeps-pure a = record { at = λ _ same. same }

module _ {S : Type 0} {P : S → Type 0} where
  pub Keeps-get : Keeps {S = S} P get
  Keeps-get = record { at = λ s h. h }

  pub Keeps-modify : (f : S → S) → ((s : S) → P s → P (f s)) → Keeps P (modify f)
  Keeps-modify f kf = record { at = kf }

  pub Keeps-raise_if : (b : Bool) (e : Exception) → Keeps {S = S} P (raise_if b e)
  Keeps-raise_if true e = record { at = λ s h. h }
  Keeps-raise_if false e = record { at = λ s h. h }

module _ {S A B : Type 0} {P : S → Type 0} where
  pub Keeps-bind :
      (call : Exec S A) (later : A → Exec S B)
      → Keeps P call
      → ((a : A) → Keeps P (later a))
      → Keeps P (call >>= later)
  unfolding ◌>>=◌
  Keeps-bind call later kept kept_later = record {
    at = λ s p. let (r, after) = call s in continued r after (kept.at s p);
  }
    where
      continued : (r : Result A) (s : S) → P s → P (continue r later s).1
      continued (ok a) s p = (kept_later a).at s p
      continued (err e) s p = p

  pub Keeps-then : (m : Exec S A) (n : Exec S B) → Keeps P m → Keeps P n → Keeps P (m >> n)
  unfolding ◌>>◌
  Keeps-then m n km kn = Keeps-bind m (λ _. n) km (λ _. kn)

module _ {S A : Type 0} {P : S → Type 0} where
  -- What follows a read may use what holds of the state that was read.
  pub Keeps-get_bind : (f : S → Exec S A) → ((s : S) → P s → Keeps P (f s)) → Keeps P (get >>= f)
  unfolding ◌>>=◌
  Keeps-get_bind f kf = record { at = λ s h. (kf s h).at s h }

  -- What follows `if c: raise` may use that `c` is false.
  pub Keeps-raise_if_then :
      (c : Bool) (e : Exception) (n : Exec S A)
      → (c ≡ false → Keeps P n)
      → Keeps P (raise_if c e >> n)
  unfolding ◌>>◌
  Keeps-raise_if_then true e n kn = record { at = λ s h. h }
  Keeps-raise_if_then false e n kn = record { at = λ s h. (kn refl).at s h }

-- The same at one object, for a step whose effect depends on what was read of it.
module _ {S A : Type 0} (P : S → Type 0) where
  pub get_bind-at : (f : S → Exec S A) (s : S) → P (f s s).1 → P ((get >>= f) s).1
  unfolding ◌>>=◌
  get_bind-at f s p = p

  pub raise_if_then-at :
      (c : Bool) (e : Exception) (n : Exec S A) (s : S)
      → P s
      → (c ≡ false → P (n s).1)
      → P ((raise_if c e >> n) s).1
  unfolding ◌>>◌ ◌>>=◌
  raise_if_then-at true e n s p q = p
  raise_if_then-at false e n s p q = q refl

  pub modify_then-at :
      (f : S → S) (n : Exec S A) (s : S) → Keeps P n → P (f s) → P ((modify f >> n) s).1
  unfolding ◌>>◌ ◌>>=◌
  modify_then-at f n s kn p = kn.at (f s) p

  pub modify_bind-at : (f : S → S) (n : Exec S A) (s : S) → P (n (f s)).1 → P ((modify f >> n) s).1
  unfolding ◌>>◌ ◌>>=◌
  modify_bind-at f n s p = p

  -- What follows a check may use that the check passed.
  pub lift_then_ok-at :
      (r : Result Done) (n : Exec S A) (s : S)
      → P s
      → ((d : Done) → r ≡ ok d → P (n s).1)
      → P ((lift r >> n) s).1
  unfolding ◌>>◌ ◌>>=◌
  lift_then_ok-at (ok a) n s p q = q a refl
  lift_then_ok-at (err e) n s p q = p

module _ {S A B : Type 0} {P : S → Type 0} where
  -- What follows a function may use what it gave.
  pub Keeps-lift_bind :
      (r : Result A) (f : A → Exec S B)
      → ((a : A) → r ≡ ok a → Keeps P (f a))
      → Keeps P (lift r >>= f)
  unfolding ◌>>=◌
  Keeps-lift_bind (ok a) f kf = record { at = λ s p. (kf a refl).at s p }
  Keeps-lift_bind (err e) f kf = record { at = λ s p. p }

module _ {S A B : Type 0} (P : S → Type 0) where
  -- What follows a call may use what it returned.
  pub bind_with-at :
      (m : Exec S A) (f : A → Exec S B) (s : S)
      → P (m s).1
      → ((a : A) → (m s).0 ≡ ok a → P (f a (m s).1).1)
      → P ((m >>= f) s).1
  unfolding ◌>>=◌
  bind_with-at m f s p go = let (r, t) = m s in one r t p go
    where
      one : (r : Result A) (t : S) → P t → ((a : A) → r ≡ ok a → P (f a t).1) → P (continue r f t).1
      one (ok a) t p go = go a refl
      one (err e) t p go = p

  -- What follows a `try` sees its result, whatever it is.
  pub attempt_bind-at :
      (m : Exec S A) (f : Result A → Exec S B) (s : S)
      → P (f (m s).0 (m s).1).1
      → P ((attempt m >>= f) s).1
  unfolding attempt ◌>>=◌
  attempt_bind-at m f s p = p

  pub then_pure-at : (m : Exec S A) (b : B) (s : S) → P (m s).1 → P ((m >> pure b) s).1
  unfolding ◌>>◌ ◌>>=◌
  then_pure-at m b s p = let (r, t) = m s in one r t p
    where
      one : (r : Result A) (t : S) → P t → P (continue r (λ _. pure b) t).1
      one (ok a) t h = h
      one (err x) t h = h

  -- A result that is only wrapped leaves the object as the call left it.
  pub bind_pure-at :
      (m : Exec S A) (g : A → B) (s : S) → P (m s).1 → P ((m >>= λ a. pure (g a)) s).1
  unfolding ◌>>=◌
  bind_pure-at m g s p = let (r, t) = m s in one r t p
    where
      one : (r : Result A) (t : S) → P t → P (continue r (λ a. pure (g a)) t).1
      one (ok a) t h = h
      one (err e) t h = h

module _ {S A B : Type 0} (P Q : S → Type 0) where
  -- A call that keeps `P`, then one that leads from `P` to `Q`; a raise between them leaves `P`.
  pub bind-at :
      (m : Exec S A) (f : A → Exec S B) (s : S)
      → Keeps P m
      → ((t : S) → P t → Q t)
      → ((a : A) (t : S) → P t → Q (f a t).1)
      → P s
      → Q ((m >>= f) s).1
  unfolding ◌>>=◌
  bind-at m f s km stop go p = let (r, t) = m s in one r t (km.at s p)
    where
      one : (r : Result A) (t : S) → P t → Q (continue r f t).1
      one (ok a) t h = go a t h
      one (err e) t h = stop t h

module _ {S A : Type 0} (B : Type 0) (P : S → Type 0) where
  pub then_raise-at :
      (m : Exec S A) (e : Exception) (s : S) → P (m s).1 → P ((m >> raise {S = S} {A = B} e) s).1
  unfolding ◌>>◌ ◌>>=◌
  then_raise-at m e s p = let (r, t) = m s in one r t p
    where
      one : (r : Result A) (t : S) → P t → P (continue r (λ _. raise {S = S} {A = B} e) t).1
      one (ok a) t h = h
      one (err x) t h = h

pub ruleset keeps_rules = (
  Keeps-pure, Keeps-raise, Keeps-lift, Keeps-if, Keeps-try, Keeps-attempt, Keeps-get,
  Keeps-raise_if, Keeps-bind, Keeps-then,
)
