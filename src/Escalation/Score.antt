-- ===== src/Escalation/Score.antt =====
-- The rules, what they match, and the score of `analyze_trajectory`.
use Prim.Native.Nat.{min}
use mathlib.Core.List.{map}
use liminal_osai.Prelude.{
  ℕ, ◌+◌, ◌-◌, ◌*◌, ℤ, pos, negsuc, ◌-ℤ◌, String, Bool, true, false, not, ◌&&◌, Option, none, some,
  List, [], ◌∷◌, ◌++◌, ltb, leb, ◌==◌, keep, member, length, if◌then◌else◌, str_leb,
}
use liminal_osai.Escalation.Event.{TrajectoryEvent}

-- An entry of `RULES`; `requires` is a non-empty tuple.
pub record Rule : Type 0 where
  pub rule_id : String
  pub weight : ℕ
  pub first : String
  pub others : List String

abbrev rule : String → ℕ → String → List String → Rule
rule i w f o = record { rule_id = i; weight = w; first = f; others = o }

abbrev pub rules : List Rule
rules =
    rule "R-CRED-EGRESS" 35 "network.connect_domain" ("credential.access" ∷ [])
    ∷ rule "R-PACKAGE-EGRESS" 20 "package.install" ("network.connect_domain" ∷ [])
    ∷ rule "R-CRED-CHILD" 30 "credential.access" ("process.spawn_child" ∷ [])
    ∷ rule "R-PACKAGE-CRED-CHILD" 45 "package.install"
        ("credential.access" ∷ "process.spawn_child" ∷ [])
    ∷ rule "R-RUNTIME-CRED" 25 "runtime.configure" ("credential.access" ∷ [])
    ∷ rule "R-NEW-EGRESS-CHILD" 25 "network.connect_domain" ("process.spawn_child" ∷ [])
    ∷ []

abbrev pub insert_rule : Rule → List Rule → List Rule
insert_rule r [] = r ∷ []
insert_rule r (s ∷ rs) = if str_leb r.rule_id s.rule_id then r ∷ s ∷ rs else s ∷ insert_rule r rs

-- `sorted(RULES.items())`
abbrev pub sort_rules : List Rule → List Rule
sort_rules [] = []
sort_rules (r ∷ rs) = insert_rule r (sort_rules rs)

-- The cursor into `required` is kept as the texts that are left, the first of them apart.
unfoldable pub ordered_subsequence : List String → String → List String → Bool
ordered_subsequence [] required later = false
ordered_subsequence (v ∷ vs) required [] =
    let rest = ordered_subsequence vs required [] in if v == required then true else rest
ordered_subsequence (v ∷ vs) required (next ∷ later) =
    let found = ordered_subsequence vs next later in
    let rest = ordered_subsequence vs required (next ∷ later) in
    if v == required then found else rest

unfoldable pub contributors_for : List TrajectoryEvent → String → List String → List String
contributors_for [] required later = []
contributors_for (e ∷ es) required [] =
    let rest = contributors_for es required [] in
    if e.kind == required then e.event_id ∷ [] else rest
contributors_for (e ∷ es) required (next ∷ later) =
    let found = contributors_for es next later in
    let rest = contributors_for es required (next ∷ later) in
    if e.kind == required then e.event_id ∷ found else rest

-- what the loop over the rules has gathered
pub record Matches : Type 0 where
  pub matched : List String
  pub contributors : List String
  pub risk : ℕ

unfoldable pub match_rules : List TrajectoryEvent → List Rule → Matches
match_rules allowed [] = record { matched = []; contributors = []; risk = 0 }
match_rules allowed (r ∷ rs) =
    let rest = match_rules allowed rs in
    let hit : Matches = record {
      matched = r.rule_id ∷ rest.matched;
      contributors = contributors_for allowed r.first r.others ++ rest.contributors;
      risk = r.weight + rest.risk;
    } in
    if ordered_subsequence (map (λ (e : TrajectoryEvent). e.kind) allowed) r.first r.others
    then hit
    else rest

abbrev first_before : List TrajectoryEvent → ℤ
first_before [] = pos 0
first_before (e ∷ es) = e.privilege_level_before

abbrev pub last_after : ℤ → List TrajectoryEvent → ℤ
last_after level [] = level
last_after level (e ∷ es) = last_after e.privilege_level_after es

unfoldable pub privilege_delta : List TrajectoryEvent → ℤ
privilege_delta [] = pos 0
privilege_delta (e ∷ es) = last_after e.privilege_level_after es -ℤ e.privilege_level_before

-- `min(25, privilege_delta * 5)` where the delta is positive
unfoldable pub privilege_points : ℤ → ℕ
privilege_points (pos n) = min 25 (n * 5)
privilege_points (negsuc n) = 0

-- `set.add` and `set.discard`
abbrev add : String → List String → List String
add x xs = if member x xs then xs else x ∷ xs

abbrev discard : String → List String → List String
discard x xs = keep (λ y. not (y == x)) xs

-- a capability id counts where it is a non-empty text
abbrev truthy : Option String → String
truthy none = ""
truthy (some s) = s

unfoldable pub update_caps : TrajectoryEvent → List String → List String
update_caps e active =
    let cap = truthy e.capability_id in
    if e.kind == "capability.grant" && not (cap == "")
    then add cap active
    else if e.kind == "capability.revoke" && not (cap == "")
    then discard cap active
    else active

-- the loop over `active_caps` and `max_caps`
unfoldable pub peak_caps : List String → ℕ → List TrajectoryEvent → ℕ
peak_caps active most [] = most
peak_caps active most (e ∷ es) =
    let now = update_caps e active in
    peak_caps now (if ltb most (length now) then length now else most) es

unfoldable pub capability_points : ℕ → ℕ
capability_points peak = if ltb 1 peak then min 20 ((peak - 1) * 5) else 0

unfoldable pub decision_for : ℕ → String
decision_for score =
    if leb 80 score
    then "CONTAIN"
    else if leb 50 score
    then "BLOCK"
    else if leb 20 score
    then "REVISE"
    else "ALLOW"
