-- ===== src/Transport/Tests.antt =====
-- packages/core/src/transport: the outbox on concrete messages.
use dina_mobile.Prelude.{eq_iff, ◌≤◌, String, true, [], ◌∷◌, ◌≡◌, refl, arith}
use dina_mobile.JsMap
use dina_mobile.Transport.Outbox.{enqueued, failed, compute_backoff, mark_failed}
use dina_mobile.Transport.Retry.{
  Turn, refused, threw, Sender, ev_call, ev_retry, call_enqueue, call_delivered, call_failed,
  happen, happen_all, retry_pending_outbox,
}
use dina_mobile.Transport.Credit.{IsOutbox, count_of}
use dina_mobile.Transport.Attempts.{sent_at_most_five}
use dina_mobile.Transport.Pass.{passed_over, retry_pass_exact}

abbrev down : String → Turn
down id = record { meanwhile = []; outcome = threw; clock = 1000 }

abbrev racing : String → Turn
racing id = record { meanwhile = call_delivered "m" ∷ []; outcome = refused; clock = 1000 }

abbrev sender : Sender
sender = record { outbox = ("m", enqueued "m" "did:b" [] 500) ∷ []; fn_set = true; sent = [] }

abbrev idle : Sender
idle = record sender { outbox = [] }

sender-IsOutbox : IsOutbox sender.outbox
unfolding JsMap.has JsMap.get
sender-IsOutbox = ((refl, tt), λ k e found. ground (arith, eq_iff "m" k))

idle-IsOutbox : IsOutbox idle.outbox
unfolding JsMap.get
idle-IsOutbox = (tt, λ k e found. ground (arith, eq_iff "m" k))

sent_at_most_five_example :
    count_of "m"
      (happen_all
        (ev_retry racing 900 ∷ ev_call (call_failed "m" 950) ∷ [])
        (happen (ev_call (call_enqueue "did:b" [] "m" 500)) idle)).sent
    ≤ 5
unfolding JsMap.get count_of
sent_at_most_five_example =
    sent_at_most_five "m" "did:b" [] 500 (ev_retry racing 900 ∷ ev_call (call_failed "m" 950) ∷ [])
      idle idle-IsOutbox refl refl ((λ id. (refl, tt)), (refl, tt))

retry_pass_exact_example :
    JsMap.get "m" (retry_pending_outbox down 900 sender).1.outbox
    ≡ passed_over (down "m") 900 (JsMap.get "m" sender.outbox)
retry_pass_exact_example = retry_pass_exact down 900 sender "m" sender-IsOutbox refl (λ id. refl)

-- The first failure waits 60 seconds.
first_backoff :
    (mark_failed "m" 1000 sender.outbox).1
    ≡ (
      "m",
      record (enqueued "m" "did:b" [] 500) {
        status = failed;
        retry_count = 1;
        next_retry_at = 61000;
      },
    )
      ∷ []
unfolding mark_failed compute_backoff JsMap.get JsMap.set
first_backoff = refl
