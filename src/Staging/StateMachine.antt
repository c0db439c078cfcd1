-- ===== src/Staging/StateMachine.antt =====
-- packages/core/src/staging/state_machine.ts: the states of an item and the tests on its times.
-- Times are Unix seconds.
use dina_mobile.Prelude.{ℕ, Bool, true, List, [], ◌∷◌, ◌≡◌, ◌↔◌, arith, any, nat_eq, leb, ltb}

pub data StagingStatus : Type 0 where
  received classifying stored pending_unlock pending_approval failed : StagingStatus

abbrev rank : StagingStatus → ℕ
rank received = 0
rank classifying = 1
rank stored = 2
rank pending_unlock = 3
rank pending_approval = 4
rank failed = 5

unfoldable pub same_status : StagingStatus → StagingStatus → Bool
same_status a b = nat_eq (rank a) (rank b)

pub same_status_iff : (a b : StagingStatus) → (same_status a b ≡ true) ↔ (a ≡ b)
unfolding same_status
same_status_iff a b = ground arith

unfoldable pub valid_transitions_from : StagingStatus → List StagingStatus
valid_transitions_from received = classifying ∷ []
valid_transitions_from classifying =
    stored ∷ pending_unlock ∷ pending_approval ∷ failed ∷ received ∷ []
valid_transitions_from stored = []
valid_transitions_from pending_unlock = stored ∷ []
valid_transitions_from pending_approval = classifying ∷ failed ∷ []
valid_transitions_from failed = received ∷ []

unfoldable pub is_valid_transition : StagingStatus → StagingStatus → Bool
unfolding same_status valid_transitions_from
is_valid_transition from to = any (same_status to) (valid_transitions_from from)

abbrev pub staging_max_retries : ℕ
staging_max_retries = 3

abbrev pub staging_lease_duration_s : ℕ
staging_lease_duration_s = 900

abbrev pub staging_item_ttl_s : ℕ
staging_item_ttl_s = 604800

unfoldable pub should_retry : ℕ → ℕ → Bool
should_retry retry_count max_retries = leb retry_count max_retries

unfoldable pub is_lease_expired : ℕ → ℕ → Bool
is_lease_expired lease_until now = ltb lease_until now

unfoldable pub is_item_expired : ℕ → ℕ → Bool
is_item_expired expires_at now = ltb expires_at now
