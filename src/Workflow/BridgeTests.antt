-- ===== src/Workflow/BridgeTests.antt =====
-- packages/core/src/workflow/service.ts: the Response Bridge in concrete interleavings.
use dina_mobile.Workflow.Exclusion.{copies}
use dina_mobile.Prelude.{eq_iff, ◌≤◌, ◌<◌, true, false, some, [], ◌∷◌, ◌≡◌, ◌⊎◌, refl, arith}
use dina_mobile.JsSet
use dina_mobile.Workflow.Bridge.{
  Bridge, new_send, find_send, begin_send, complete_query, settle_send, time_out, end_clear,
  begin_pass, advance_pass, visit_durable, is_waiting, release, remove_send, completes, settles,
  begins, advances, restarted, Reach, start, later,
}
use dina_mobile.Workflow.Exclusion.{count_sends, under_way, one_send_at_a_time}
use dina_mobile.Workflow.Responses.{response_kept}
use dina_mobile.Workflow.Resend.{listed_response_sent_again}

-- The first send for "x" fails; the one for "q" is awaited when a pass begins and retries "x".
abbrev retrying : Bridge
retrying = advance_pass 50 true (
    begin_pass ("x" ∷ "q" ∷ [])
      (complete_query "q" true (settle_send "x" false (complete_query "x" true (restarted [])))))

retrying_reached : Reach [] retrying
retrying_reached =
    later
      (later
        (later (later (later start (completes "x" true)) (settles "x" false)) (completes "q" true))
        (begins ("x" ∷ "q" ∷ [])))
      (advances 50 true)

one_send_at_a_time_example :
    (count_sends "q" retrying.sends ≤ 1)
    × (0 < count_sends "q" retrying.sends → JsSet.has "q" retrying.in_flight ≡ true)
    × (JsSet.has "q" retrying.abandoned ≡ false → under_way "q" retrying ≤ 1)
one_send_at_a_time_example = one_send_at_a_time "q" [] retrying retrying_reached

-- A send that has timed out still runs when a pass sends the response again.
sent_twice :
    let again =
      advance_pass 50 true
        (begin_pass ("x" ∷ []) (time_out "x" (complete_query "x" true (restarted [])))) in
    (count_sends "x" again.sends ≡ 1) × (under_way "x" again ≡ 2)
unfolding count_sends advance_pass begin_pass time_out complete_query JsSet.has JsSet.add
    JsSet.delete under_way copies
sent_twice = (refl, refl)

response_kept_example :
    (JsSet.has "x" retrying.delivered ≡ true)
    ⊎ (JsSet.has "x" retrying.stashes ≡ true)
    ⊎ (JsSet.has "x" retrying.fallback ≡ true)
unfolding complete_query settle_send begin_pass advance_pass visit_durable begin_send is_waiting
    release find_send remove_send JsSet.has JsSet.add JsSet.delete
response_kept_example = response_kept "x" [] retrying retrying_reached refl

listed_response_sent_again_example :
    let cleared = end_clear "q" true (settle_send "q" true retrying) in
    let after = advance_pass 50 true (settle_send "x" false cleared) in
    (JsSet.has "q" cleared.delivered ≡ true)
    × (JsSet.has "q" cleared.stashes ≡ false)
    × (find_send "q" after.sends ≡ some (new_send "q" true true))
unfolding complete_query settle_send begin_pass advance_pass visit_durable begin_send is_waiting
    release find_send remove_send JsSet.has JsSet.add JsSet.delete
listed_response_sent_again_example =
    listed_response_sent_again "q" "x" [] 50 true retrying refl refl
      (λ e. ground (arith, eq_iff "x" "q")) refl
