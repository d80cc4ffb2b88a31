-- ===== src/Escalation/Subsequence.antt =====
-- The rule matcher `_ordered_subsequence` decides the subsequence relation, and
-- `_contributors_for` names events of the required kinds.
use mathlib.Core.List.{map, Sublistᴰ}
use liminal_osai.Prelude.{
  String, ◌≡◌, refl, sym, ap, ◌↔◌, inl, inr, true, List, [], ◌∷◌, ◌==◌, eq_iff, arith, Bool-cases,
}
use liminal_osai.Escalation.Event.{TrajectoryEvent}
use liminal_osai.Escalation.Score.{ordered_subsequence, contributors_for}

nil-Sublistᴰ {ℓ} : {A : Type ℓ} (l : List A) → Sublistᴰ [] l
nil-Sublistᴰ [] = Sublistᴰ.slnil
nil-Sublistᴰ (a ∷ l) = Sublistᴰ.cons (nil-Sublistᴰ l)

pub ordered_subsequence_sound :
    (values : List String) (r : String) (rs : List String)
    → ordered_subsequence values r rs ≡ true
    → Sublistᴰ (r ∷ rs) values
unfolding ordered_subsequence
ordered_subsequence_sound [] r rs e = absurd (cc)
ordered_subsequence_sound (v ∷ vs) r [] e = elim (Bool-cases (v == r)) [
  | inl same ↦ Sublistᴰ.cons-cons (sym ((eq_iff v r).0 same)) (nil-Sublistᴰ vs)
  | inr other ↦ Sublistᴰ.cons (ordered_subsequence_sound vs r [] (rw other at e))
]
ordered_subsequence_sound (v ∷ vs) r (s ∷ rs) e = elim (Bool-cases (v == r)) [
  | inl same ↦
      Sublistᴰ.cons-cons (sym ((eq_iff v r).0 same))
        (ordered_subsequence_sound vs s rs (rw same at e))
  | inr other ↦ Sublistᴰ.cons (ordered_subsequence_sound vs r (s ∷ rs) (rw other at e))
]

-- Scanning greedily loses nothing: a match that skips `v` is still found.
ordered_subsequence_weaken :
    (vs : List String) (r s : String) (rs : List String)
    → ordered_subsequence vs r (s ∷ rs) ≡ true
    → ordered_subsequence vs s rs ≡ true
unfolding ordered_subsequence
ordered_subsequence_weaken [] r s rs e = absurd (cc)
ordered_subsequence_weaken (v ∷ vs) r s [] e = ground (arith, ordered_subsequence_weaken vs r s [])
ordered_subsequence_weaken (v ∷ vs) r s (t ∷ rs) e =
    ground (arith, ordered_subsequence_weaken vs r s (t ∷ rs), ordered_subsequence_weaken vs s t rs)

pub ordered_subsequence_complete :
    (values : List String) (r : String) (rs : List String)
    → Sublistᴰ (r ∷ rs) values
    → ordered_subsequence values r rs ≡ true
unfolding ordered_subsequence
ordered_subsequence_complete [] r rs s = elim s [ ]
ordered_subsequence_complete (v ∷ vs) r [] (Sublistᴰ.cons s) =
    ground (arith, ordered_subsequence_complete vs r [] s)
ordered_subsequence_complete (v ∷ vs) r [] (Sublistᴰ.cons-cons e s) = ground (arith, eq_iff v r)
ordered_subsequence_complete (v ∷ vs) r (t ∷ rs) (Sublistᴰ.cons s) =
    ground
      (arith, ordered_subsequence_complete vs r (t ∷ rs) s, ordered_subsequence_weaken vs r t rs)
ordered_subsequence_complete (v ∷ vs) r (t ∷ rs) (Sublistᴰ.cons-cons e s) =
    ground (arith, eq_iff v r, ordered_subsequence_complete vs t rs s)

-- The matcher accepts exactly the trajectories in which the required kinds occur in order, possibly
-- with other kinds between them.
pub ordered_subsequence_iff :
    (values : List String) (required : String) (later : List String)
    → (ordered_subsequence values required later ≡ true) ↔ Sublistᴰ (required ∷ later) values
ordered_subsequence_iff values r rs =
    (ordered_subsequence_sound values r rs, ordered_subsequence_complete values r rs)

-- Where a rule matches, the contributors recorded for it are the ids of events of the trajectory,
-- in its order, whose kinds are exactly the rule's required kinds.
pub contributors_for_kinds :
    (events : List TrajectoryEvent) (required : String) (later : List String)
    → ordered_subsequence (map (λ (e : TrajectoryEvent). e.kind) events) required later ≡ true
    → (chosen : List TrajectoryEvent) × Sublistᴰ chosen events
      × (map (λ (e : TrajectoryEvent). e.kind) chosen ≡ required ∷ later)
      × (contributors_for events required later ≡ map (λ (e : TrajectoryEvent). e.event_id) chosen)
unfolding ordered_subsequence contributors_for
contributors_for_kinds [] r rs h = absurd (cc)
contributors_for_kinds (e ∷ es) r [] h = elim (Bool-cases (e.kind == r)) [
  | inl same ↦ (
    e ∷ [],
    Sublistᴰ.cons-cons refl (nil-Sublistᴰ es),
    ground (arith, eq_iff e.kind r),
    ground arith,
  )
  | inr other ↦
      let (chosen, sub, kinds, ids) = contributors_for_kinds es r [] (rw other at h) in
      (chosen, Sublistᴰ.cons sub, kinds, rw other ids)
]
contributors_for_kinds (e ∷ es) r (s ∷ rs) h = elim (Bool-cases (e.kind == r)) [
  | inl same ↦
      let (chosen, sub, kinds, ids) = contributors_for_kinds es s rs (rw same at h) in
      (
        e ∷ chosen,
        Sublistᴰ.cons-cons refl sub,
        cc ((eq_iff e.kind r).0 same, kinds),
        rw same (ap (λ t. e.event_id ∷ t) ids),
      )
  | inr other ↦
      let (chosen, sub, kinds, ids) = contributors_for_kinds es r (s ∷ rs) (rw other at h) in
      (chosen, Sublistᴰ.cons sub, kinds, rw other ids)
]
