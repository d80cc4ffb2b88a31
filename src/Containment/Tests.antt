-- ===== src/Containment/Tests.antt =====
-- An environment whose runtime cannot be frozen, and each theorem there.
use liminal_osai.Prelude.{pos, ◌≡◌, ◌⊎◌, refl, true, List, [], ◌∷◌, none, ok, err, IsOk}
use liminal_osai.Json.{Fields, fields, str, end}
use liminal_osai.Hashing.{Hashing, zero_sha256}
use liminal_osai.Containment.State.{Environment, CapabilityView, idle, review, create}
use liminal_osai.Containment.Checks.{validated_phase3_receipt, require_sha}
use liminal_osai.Containment.Coordinator.{contain, release}
use liminal_osai.Containment.Calls.{Call, contain_call, release_call, after}
use liminal_osai.Containment.Review.{contain_reviews}
use liminal_osai.Containment.Stages.{Revocation, revoke_each}
use liminal_osai.Containment.Accounted.{IsAllAccounted, revoke_each_accounts}
use liminal_osai.Containment.Walk.{IsWalk, after-IsWalk}
use liminal_osai.Containment.Release.{IsReleasable, release_gate}
use liminal_osai.Prelude.{is_sha256}

-- every document has the digest of 64 zeros
instance abbrev zeros : Hashing
zeros = record { digest = λ v. zero_sha256 }

-- the world is the list of the capabilities that are active
abbrev environment : Environment (List CapabilityView)
environment = record {
  capabilities = λ w. w;
  revoke_capability = λ id at w. (ok "ALLOW", []);
  freeze_runtime = λ w. (err (record { type_name = "RuntimeError"; message = "busy" }), w);
  close_egress = λ w. (ok tt, w);
  seal_trace = λ w. (ok (str zero_sha256), w);
  snapshot_forensics = λ w. (ok end, w);
  quiesce_runtime = none;
}

abbrev world : List CapabilityView
world = record { capability_id = "capability:1"; status = "active" } ∷ []

abbrev phase3_receipt : Fields
phase3_receipt = fields (("decision", str "CONTAIN") ∷ ("receipt_sha256", str zero_sha256) ∷ [])

contain_reviews_example :
    IsOk (contain environment phase3_receipt "incident:1" (pos 7) (create world)).0
    × ((contain environment phase3_receipt "incident:1" (pos 7) (create world)).1.state ≡ review)
unfolding validated_phase3_receipt require_sha is_sha256
contain_reviews_example =
    contain_reviews environment world phase3_receipt zero_sha256 "incident:1" (pos 7) (λ v. refl)
      refl

abbrev calls : List Call
calls =
    contain_call phase3_receipt "incident:1" (pos 7)
    ∷ release_call "release:1" true (pos 8)
    ∷ contain_call phase3_receipt "incident:2" (pos 9)
    ∷ []

after-IsWalk_example :
    IsWalk idle zero_sha256
      (after environment (create world) calls).transitions
      (after environment (create world) calls).state
after-IsWalk_example = after-IsWalk environment world calls

release_gate_example :
    ((release "release:1" true (pos 8) (after environment (create world) calls)).1
      ≡ after environment (create world) calls)
    ⊎ IsReleasable (after environment (create world) calls) "release:1" true
release_gate_example =
    release_gate (after environment (create world) calls) "release:1" true (pos 8)

revoke_each_accounts_example :
    (v : Revocation) × ((revoke_each environment (pos 7) world (create world)).0 ≡ ok v)
    × IsAllAccounted world v
revoke_each_accounts_example = revoke_each_accounts environment (pos 7) world (create world)
