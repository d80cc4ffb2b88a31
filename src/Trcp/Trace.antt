-- ===== src/Trcp/Trace.antt =====
-- The hash-linked trace: each event has the next number, the digest before it, and its own digest.
use liminal_osai.Prelude.{ℕ, suc, ◌+◌, String, ◌≡◌, refl, List, [], ◌∷◌, ◌++◌, length, arith}
use liminal_osai.Json.{Fields}
use liminal_osai.Hashing.{Hashing, canonical_sha256, zero_sha256}
use liminal_osai.Trcp.State.{TraceEvent, core, Simulator}
use liminal_osai.Trcp.Protocol.{trace_head, next_event}

module _ ⦃h : Hashing⦄ where
  pub record IsLinked (n : ℕ) (previous : String) (e : TraceEvent) : Type 0 where
    pub numbered : e.sequence ≡ n
    pub linked : e.previous_event_sha256 ≡ previous
    pub hashed : e.event_sha256 ≡ canonical_sha256 (core e)

  abbrev pub IsTrace : ℕ → String → List TraceEvent → Type 0
  IsTrace n previous [] = Unit
  IsTrace n previous (e ∷ es) = IsLinked n previous e × IsTrace (suc n) e.event_sha256 es

  abbrev pub head_after : String → List TraceEvent → String
  head_after previous [] = previous
  head_after previous (e ∷ es) = head_after e.event_sha256 es

  IsTrace-append :
      (n : ℕ) (previous : String) (es : List TraceEvent) (e : TraceEvent)
      → IsTrace n previous es
      → IsLinked (n + length es) (head_after previous es) e
      → IsTrace n previous (es ++ e ∷ [])
  IsTrace-append n previous [] e t l =
      (record { numbered = omega (arith, l.numbered); linked = l.linked; hashed = l.hashed }, tt)
  IsTrace-append n previous (d ∷ es) e t l = (
    t.0,
    IsTrace-append (suc n) d.event_sha256 es e t.1
        (record { numbered = omega (arith, l.numbered); linked = l.linked; hashed = l.hashed }),
  )

  head_after-last :
      (d : TraceEvent) (es : List TraceEvent) → trace_head (d ∷ es) ≡ head_after d.event_sha256 es
  head_after-last d [] = refl
  head_after-last d (e ∷ es) = head_after-last e es

  trace_head-eq : (es : List TraceEvent) → trace_head es ≡ head_after zero_sha256 es
  trace_head-eq [] = refl
  trace_head-eq (e ∷ es) = head_after-last e es

  pub next_event-IsTrace :
      (s : Simulator) (kind : String) (payload : Fields)
      → IsTrace 1 zero_sha256 s.trace
      → IsTrace 1 zero_sha256 (s.trace ++ next_event s kind payload ∷ [])
  unfolding next_event core
  next_event-IsTrace s kind payload t =
      IsTrace-append 1 zero_sha256 s.trace (next_event s kind payload) t
        (record { numbered = omega arith; linked = trace_head-eq s.trace; hashed = refl })
