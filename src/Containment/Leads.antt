-- ===== src/Containment/Leads.antt =====
-- Total correctness of the coordinator's parts: a part that starts in one stage returns, whatever the
-- callbacks do, and leaves the coordinator in a known stage.
use liminal_osai.Prelude.{ℤ, String, ◌≡◌, refl, ap, ◌∙◌, true, some, eq_refl, Result, ok, err, Exec}
use liminal_osai.Json.{str}
use liminal_osai.Hashing.{Hashing}
use liminal_osai.Exec.{pure, get, modify, attempt, continue, ◌>>=◌, ◌>>◌}
use liminal_osai.Containment.State.{Stage, stage_name, next_stage, Coordinator}
use liminal_osai.Containment.Checks.{require_sha}
use liminal_osai.Containment.Stages.{step}
use liminal_osai.Prelude.{is_sha256}

-- the stage `y` and a value with `R`, or no outcome
abbrev pub Good : {W A : Type 0} → Stage → (A → Type 0) → Result A → Coordinator W → Type 0
Good y R (ok a) c = R a × (c.state ≡ y)
Good y R (err e) c = ⊥

pub record Leads {W A : Type 0} (x y : Stage) (R : A → Type 0) (m : Exec (Coordinator W) A)
    : Type 0 where
  pub at : (c : Coordinator W) → c.state ≡ x → Good y R (m c).0 (m c).1

abbrev pub Any : {A : Type 0} → A → Type 0
Any a = Unit

module _ {W A : Type 0} {x : Stage} where
  pub Leads-pure : {R : A → Type 0} (a : A) → R a → Leads {W = W} x x R (pure a)
  Leads-pure a r = record { at = λ c e. (r, e) }

  pub Leads-weaken :
      {y : Stage} {Q R : A → Type 0} (m : Exec (Coordinator W) A)
      → Leads x y Q m
      → ((a : A) → Q a → R a)
      → Leads x y R m
  Leads-weaken {y} {Q} {R} m k f = record { at = λ c e. let (r, d) = m c in weaker r d (k.at c e) }
    where
      weaker : (r : Result A) (d : Coordinator W) → Good y Q r d → Good y R r d
      weaker (ok a) d (q, e) = (f a q, e)
      weaker (err x) d bad = absurd bad

  pub Leads-get_bind :
      {y : Stage} {R : A → Type 0} (f : Coordinator W → Exec (Coordinator W) A)
      → ((c : Coordinator W) → c.state ≡ x → Leads x y R (f c))
      → Leads x y R (get >>= f)
  unfolding ◌>>=◌
  Leads-get_bind f k = record { at = λ c e. (k c e).at c e }

  pub Leads-modify_then :
      {y : Stage} {R : A → Type 0} (f : Coordinator W → Coordinator W) (n : Exec (Coordinator W) A)
      → ((c : Coordinator W) → (f c).state ≡ c.state)
      → Leads x y R n
      → Leads x y R (modify f >> n)
  unfolding ◌>>◌ ◌>>=◌
  Leads-modify_then f n same k = record { at = λ c e. k.at (f c) (same c ∙ e) }

  -- a body under `try`: its outcome is a value, with what is known of each outcome
  pub Leads-attempt :
      {R : Result A → Type 0} (m : Exec (Coordinator W) A)
      → ((c : Coordinator W) → (m c).1.state ≡ c.state)
      → ((c : Coordinator W) → R (m c).0)
      → Leads x x R (attempt m)
  unfolding attempt
  Leads-attempt m same known = record { at = λ c e. (known c, same c ∙ e) }

module _ {W A B : Type 0} {x y z : Stage} where
  pub Leads-bind :
      {Q : A → Type 0} {R : B → Type 0} (m : Exec (Coordinator W) A)
      (f : A → Exec (Coordinator W) B)
      → Leads x y Q m
      → ((a : A) → Q a → Leads y z R (f a))
      → Leads x z R (m >>= f)
  unfolding ◌>>=◌
  Leads-bind {Q} {R} m f lm lf = record { at = λ c e. let (r, d) = m c in rest r d (lm.at c e) }
    where
      rest :
          (r : Result A) (d : Coordinator W)
          → Good y Q r d
          → Good z R (continue r f d).0 (continue r f d).1
      rest (ok a) d (q, e) = (lf a q).at d e
      rest (err e) d bad = absurd bad

  pub Leads-then :
      {Q : A → Type 0} {R : B → Type 0} (m : Exec (Coordinator W) A) (n : Exec (Coordinator W) B)
      → Leads x y Q m
      → Leads y z R n
      → Leads x z R (m >> n)
  unfolding ◌>>◌
  Leads-then m n lm ln = Leads-bind m (λ _. n) lm (λ a q. ln)

pub require_sha-ok : (s name : String) → is_sha256 s ≡ true → require_sha (str s) name ≡ ok s
unfolding require_sha
require_sha-ok s name d = rw d refl

module _ {W : Type 0} ⦃h : Hashing⦄ where
  pub Leads-step :
      (x y : Stage) (at : ℤ) (evidence : String)
      → next_stage x ≡ some y
      → is_sha256 evidence ≡ true
      → Leads {W = W} x y Any (step y at evidence)
  unfolding step ◌>>◌ ◌>>=◌
  Leads-step x y at evidence n d = record {
    at = λ c e.
        let expected : next_stage c.state ≡ some y = ap next_stage e ∙ n in
        rw expected (
          rw (eq_refl (stage_name y))
            (rw (require_sha-ok evidence "transition evidence" d) (tt, refl)));
  }
