-- ===== src/Trcp/Narrowing.antt =====
-- `is_equal_or_narrower_than` is transitive.
use liminal_osai.Prelude.{
  ◌≡◌, true, is_subset, is_subset_trans, ◌==◌, ==_trans, arith, leb_ℤ, ℤ, &&-split, &&-join,
}
use liminal_osai.Trcp.Scope.{ScopeEnvelope, is_equal_or_narrower_than}

-- the nine comparisons, each for itself
pub record IsNarrower (s parent : ScopeEnvelope) : Type 0 where
  pub authorization : (s.authorization_id == parent.authorization_id) ≡ true
  pub targets : is_subset s.allowed_targets parent.allowed_targets ≡ true
  pub actions : is_subset s.allowed_actions parent.allowed_actions ≡ true
  pub environments : is_subset s.allowed_environments parent.allowed_environments ≡ true
  pub prohibitions : is_subset parent.prohibited_actions s.prohibited_actions ≡ true
  pub handling : (s.data_handling_class == parent.data_handling_class) ≡ true
  pub mode : (s.network_mode == parent.network_mode) ≡ true
  pub local : (parent.network_mode == "LOCAL_ONLY") ≡ true
  pub expiry : leb_ℤ s.expires_at parent.expires_at ≡ true

pub IsNarrower-of_test :
    (s p : ScopeEnvelope) → is_equal_or_narrower_than s p ≡ true → IsNarrower s p
unfolding is_equal_or_narrower_than
IsNarrower-of_test s p h =
    let (h8, expiry) = &&-split _ _ h in
    let (h7, only) = &&-split _ _ h8 in
    let (h6, mode) = &&-split _ _ h7 in
    let (h5, handling) = &&-split _ _ h6 in
    let (h4, prohibitions) = &&-split _ _ h5 in
    let (h3, environments) = &&-split _ _ h4 in
    let (h2, actions) = &&-split _ _ h3 in
    let (authorization, targets) = &&-split _ _ h2 in
    record {
      authorization = authorization;
      targets = targets;
      actions = actions;
      environments = environments;
      prohibitions = prohibitions;
      handling = handling;
      mode = mode;
      local = only;
      expiry = expiry;
    }

pub test_of-IsNarrower :
    (s p : ScopeEnvelope) → IsNarrower s p → is_equal_or_narrower_than s p ≡ true
unfolding is_equal_or_narrower_than
test_of-IsNarrower s p n =
    let two = &&-join _ _ n.authorization n.targets in
    let four = &&-join _ _ (&&-join _ _ two n.actions) n.environments in
    let six = &&-join _ _ (&&-join _ _ four n.prohibitions) n.handling in
    &&-join _ _ (&&-join _ _ (&&-join _ _ six n.mode) n.local) n.expiry

leb_ℤ_trans : (a b c : ℤ) → leb_ℤ a b ≡ true → leb_ℤ b c ≡ true → leb_ℤ a c ≡ true
leb_ℤ_trans a b c p q = ground arith

-- Narrowing composes: an envelope that passes the test of `is_equal_or_narrower_than` against a
-- second, which passes it against a third, passes it against the third.
pub is_equal_or_narrower_than_trans :
    (a b c : ScopeEnvelope)
    → is_equal_or_narrower_than a b ≡ true
    → is_equal_or_narrower_than b c ≡ true
    → is_equal_or_narrower_than a c ≡ true
is_equal_or_narrower_than_trans a b c p q =
    let m = IsNarrower-of_test a b p in
    let n = IsNarrower-of_test b c q in
    test_of-IsNarrower a c (record {
      authorization =
          ==_trans a.authorization_id b.authorization_id c.authorization_id m.authorization
            n.authorization;
      targets =
          is_subset_trans a.allowed_targets b.allowed_targets c.allowed_targets m.targets n.targets;
      actions =
          is_subset_trans a.allowed_actions b.allowed_actions c.allowed_actions m.actions n.actions;
      environments =
          is_subset_trans a.allowed_environments b.allowed_environments c.allowed_environments
            m.environments n.environments;
      prohibitions =
          is_subset_trans c.prohibited_actions b.prohibited_actions a.prohibited_actions
            n.prohibitions m.prohibitions;
      handling =
          ==_trans a.data_handling_class b.data_handling_class c.data_handling_class m.handling
            n.handling;
      mode = ==_trans a.network_mode b.network_mode c.network_mode m.mode n.mode;
      local = n.local;
      expiry = leb_ℤ_trans a.expires_at b.expires_at c.expires_at m.expiry n.expiry;
    })
