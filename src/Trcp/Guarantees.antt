-- ===== src/Trcp/Guarantees.antt =====
-- The guarantees of the protocol for a simulator that a client has used in any way.
use liminal_osai.Prelude.{
  ℕ, ◌<◌, sym, subst, ◌∙◌, inr, ℤ, ◌≡◌, ◌⊎◌, refl, inl, Bool, true, false, List, [], ◌∷◌, ◌++◌,
  arith,
}
use liminal_osai.Json.{fields, str}
use liminal_osai.Hashing.{Hashing, zero_sha256}
use liminal_osai.Trcp.Authorization.{AuthorizationRecord}
use liminal_osai.Trcp.Scope.{ScopeEnvelope, is_equal_or_narrower_than}
use liminal_osai.Trcp.State.{
  State, new, authorized, active, degraded, failover_pending, active_on_fallback, verifying,
  auth_expired, scope_invalid, human_review_required, aborted, closed, may_move, state_name,
  Simulator,
}
use liminal_osai.Trcp.Protocol.{append}
use liminal_osai.Trcp.Trace.{IsTrace, next_event-IsTrace}
use liminal_osai.Trcp.Methods.{fresh, create}
use liminal_osai.Trcp.Calls.{Call, perform, after}
use liminal_osai.Trcp.Invariant.{Inv, Moves, HasStatus, HasResult}
use liminal_osai.Trcp.Preservation.{after-Inv}

module _ ⦃h : Hashing⦄ where
  create-Inv :
      (a : AuthorizationRecord) (sc : ScopeEnvelope) (now : ℤ)
      → Inv (create a sc now) (create a sc now)
  unfolding create append
  create-Inv a sc now = record {
    moved = Moves.here;
    traced =
        next_event-IsTrace (fresh a sc now) "SIMULATOR_CREATED"
          (fields (("state", str (state_name new)) ∷ [])) tt;
    same_authorization = refl;
    same_initial = refl;
    narrowed = inl refl;
    evidenced = λ f. absurd f;
  }

  -- After any calls on a fresh simulator, the trace is numbered from 1 without a gap, each event
  -- holds the digest of the event before it (64 zeros for the first), and its own digest is that of
  -- its content.
  pub after-IsTrace :
      (a : AuthorizationRecord) (sc : ScopeEnvelope) (now : ℤ) (calls : List Call)
      → IsTrace 1 zero_sha256 (after (create a sc now) calls).trace
  after-IsTrace a sc now calls =
      (after-Inv (create a sc now) (create a sc now) calls (create-Inv a sc now)).traced

  -- After any calls on a fresh simulator, the authorization and the initial scope are the given
  -- ones, and the effective scope is the given one or passes the narrowing test against it.
  pub after_narrows :
      (a : AuthorizationRecord) (sc : ScopeEnvelope) (now : ℤ) (calls : List Call)
      → let s = after (create a sc now) calls in
        (s.authorization ≡ a)
        × (s.initial_scope ≡ sc)
        × ((s.scope ≡ sc) ⊎ (is_equal_or_narrower_than s.scope sc ≡ true))
  unfolding create append
  after_narrows a sc now calls =
      let i = after-Inv (create a sc now) (create a sc now) calls (create-Inv a sc now) in
      (i.same_authorization, i.same_initial, i.narrowed)

  -- After any calls on a fresh simulator, a finding with status CONFIRMED comes with a verification
  -- whose result is REPRODUCED.
  pub confirmed_is_reproduced :
      (a : AuthorizationRecord) (sc : ScopeEnvelope) (now : ℤ) (calls : List Call)
      → HasStatus "CONFIRMED" (after (create a sc now) calls).finding
      → HasResult "REPRODUCED" (after (create a sc now) calls).verification
  confirmed_is_reproduced a sc now calls =
      (after-Inv (create a sc now) (create a sc now) calls (create-Inv a sc now)).evidenced

  self-Inv :
      (s : Simulator)
      → IsTrace 1 zero_sha256 s.trace
      → (HasStatus "CONFIRMED" s.finding → HasResult "REPRODUCED" s.verification)
      → Inv s s
  self-Inv s t e = record {
    moved = Moves.here;
    traced = t;
    same_authorization = refl;
    same_initial = refl;
    narrowed = inl refl;
    evidenced = e;
  }

  -- the states with no allowed transition
  abbrev pub is_final : State → Bool
  is_final auth_expired = true
  is_final scope_invalid = true
  is_final human_review_required = true
  is_final aborted = true
  is_final closed = true
  is_final _ = false

  final_stays : (t u : State) → is_final t ≡ true → may_move t u ≡ false
  unfolding may_move
  final_stays t u f = ground arith

  Moves-final : {s t : State} → is_final s ≡ true → Moves s t → t ≡ s
  Moves-final f Moves.here = refl
  Moves-final {s} f (Moves.next {t = t} {u = u} m allowed) =
      let same = Moves-final f m in ground (arith, final_stays t u, same)

  after-append :
      (s : Simulator) (before later : List Call)
      → after s (before ++ later) ≡ after (after s before) later
  unfolding after
  after-append s [] later = refl
  after-append s (c ∷ cs) later = after-append (perform c s).1 cs later

  -- Once the calls on a fresh simulator have brought it to a final state (AUTH_EXPIRED,
  -- SCOPE_INVALID, HUMAN_REVIEW_REQUIRED, ABORTED or CLOSED), no later calls change the state.
  pub final_absorbs :
      (a : AuthorizationRecord) (sc : ScopeEnvelope) (now : ℤ) (before later : List Call)
      → is_final (after (create a sc now) before).state ≡ true
      → (after (create a sc now) (before ++ later)).state ≡ (after (create a sc now) before).state
  final_absorbs a sc now before later f =
      let s = after (create a sc now) before in
      let i = after-Inv (create a sc now) (create a sc now) before (create-Inv a sc now) in
      rw after-append (Moves-final f (after-Inv s s later (self-Inv s i.traced i.evidenced)).moved)

  -- how far a run has come
  abbrev phase : State → ℕ
  phase new = 0
  phase authorized = 1
  phase active = 2
  phase degraded = 3
  phase failover_pending = 4
  phase active_on_fallback = 5
  phase verifying = 6
  phase _ = 7

  may_move-phase : (t u : State) → may_move t u ≡ true → phase t < phase u
  unfolding may_move
  may_move-phase t u allowed = ground arith

  Moves-phase : {s t : State} → Moves s t → (t ≡ s) ⊎ (phase s < phase t)
  Moves-phase Moves.here = inl refl
  Moves-phase (Moves.next {t = t} {u = u} m allowed) =
      let step = may_move-phase t u allowed in
      elim (Moves-phase m) [
        | inl same ↦ inr (subst (λ x. phase x < phase u) same step)
        | inr more ↦ inr (omega (arith, more, step))
      ]

  Moves-back : (s t u : State) → Moves s t → Moves t u → u ≡ s → t ≡ s
  Moves-back s t u m n back = elim (Moves-phase m) [
    | inl same ↦ same
    | inr more ↦ elim (Moves-phase n) [
      | inl stayed ↦ sym stayed ∙ back
      | inr further ↦
          absurd
            (let less = subst (λ x. phase t < phase x) back further in omega (arith, more, less))
    ]
  ]

  -- Once any calls on a fresh simulator have brought it out of a state, no later calls bring it
  -- back: where it is in the same state before some calls and after some more, it was in that state
  -- between them too.
  pub never_returns :
      (a : AuthorizationRecord) (sc : ScopeEnvelope) (now : ℤ) (before middle later : List Call)
      → let s = after (create a sc now) before in
        (after (after s middle) later).state ≡ s.state → (after s middle).state ≡ s.state
  never_returns a sc now before middle later back =
      let s = after (create a sc now) before in
      let t = after s middle in
      let i = after-Inv (create a sc now) (create a sc now) before (create-Inv a sc now) in
      let j = after-Inv s s middle (self-Inv s i.traced i.evidenced) in
      let k = after-Inv t t later (self-Inv t j.traced j.evidenced) in
      Moves-back s.state t.state (after t later).state j.moved k.moved back
