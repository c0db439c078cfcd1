-- ===== src/Gatekeeper/Egress.antt =====
-- packages/core/src/gatekeeper/egress.ts: the check of what leaves the device. The scrubber of
-- personal data is an argument, which gives the scrubbed text and the number of its finds; the
-- metadata, which the check does not read, and the reasons are not modelled.
use dina_mobile.Prelude.{
  ℕ, String, Bool, true, false, not, Option, none, some, List, [], ◌==◌, ◌||◌, ltb, if◌then◌else◌,
}
use dina_mobile.Gatekeeper.Sharing.{Policies, is_restricted, check_sharing_policy}

pub record EgressData : Type 0 where
  pub text : String
  pub categories : List String
  pub body : Option String

pub record EgressResult : Type 0 where
  pub allowed : Bool
  pub filtered_text : String
  pub filtered_body : Option String
  pub scrubbed : Bool
  pub blocked_categories : List String
  pub applied_tier : String

abbrev blocked : List String → String → EgressResult
blocked categories tier = record {
  allowed = false;
  filtered_text = "";
  filtered_body = none;
  scrubbed = false;
  blocked_categories = categories;
  applied_tier = tier;
}

module _ (scrub : String → String × ℕ) where
  -- `if (filteredBody)`: an empty body becomes none.
  abbrev pub scrubbed_body : Option String → Option String
  scrubbed_body none = none
  scrubbed_body (some body) = if body == "" then none else some (scrub body).0

  -- `filteredBody !== undefined && scrubbedBody !== filteredBody`
  abbrev is_changed : Option String → Option String → Bool
  is_changed none _ = false
  is_changed (some body) none = true
  is_changed (some body) (some b) = not (body == b)

  abbrev pub passed : String → Option String → String → EgressResult
  passed text body tier = record {
    allowed = true;
    filtered_text = (scrub text).0;
    filtered_body = scrubbed_body body;
    scrubbed = ltb 0 (scrub text).1 || is_changed body (scrubbed_body body);
    blocked_categories = [];
    applied_tier = tier;
  }

  unfoldable pub check_egress : EgressData → String → Policies → EgressResult
  unfolding check_sharing_policy
  check_egress data' contact_did ps =
      let d = check_sharing_policy contact_did data'.categories ps in
      if not d.allowed
      then blocked d.filtered_categories d.tier
      else if d.tier == "summary"
      then passed data'.text none d.tier
      else if is_restricted d.tier
      then blocked data'.categories d.tier
      else passed data'.text data'.body d.tier

unfoldable pub is_egress_allowed : String → List String → Policies → Bool
unfolding check_sharing_policy
is_egress_allowed contact_did categories ps =
    (check_sharing_policy contact_did categories ps).allowed
