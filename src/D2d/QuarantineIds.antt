-- ===== src/D2d/QuarantineIds.antt =====
-- packages/core/src/d2d/quarantine.ts: the ids that the counter gives.
use text.Mathlib.TextLemmas.{nil-append, cons-append}
use dina_mobile.Prelude.{
  ℕ, ◌+◌, ◌<◌, String, Bool, false, not, none, some, List, [], ◌∷◌, ◌≡◌, refl, sym, ap, ◌∙◌, arith,
  ◌==◌, eq_iff, if◌then◌else◌, decimal, decimal-injective, leb,
}
use dina_mobile.JsMap
use dina_mobile.JsMap.{
  IsKeyed, get-set, get-delete, get-retain-none, IsKeyed-set, IsKeyed-delete, IsKeyed-retain,
}
use dina_mobile.D2d.Quarantine.{
  Quarantine, QuarantinedMessage, quarantine_id, quarantine_message, unquarantine_sender,
  block_sender, delete_quarantined, sweep_expired, reset_quarantine_state, is_from,
}

-- The calls that change the quarantine.
pub data QuarantineOp : Type 0 where
  op_quarantine : String → String → String → ℕ → QuarantineOp
  op_unquarantine op_block op_delete : String → QuarantineOp
  op_sweep : ℕ → QuarantineOp

unfoldable pub quarantine_step : QuarantineOp → Quarantine → Quarantine
unfolding quarantine_message unquarantine_sender block_sender delete_quarantined sweep_expired
quarantine_step (op_quarantine sender_did message_type body now) s =
    (quarantine_message sender_did message_type body now s).1
quarantine_step (op_unquarantine sender_did) s = (unquarantine_sender sender_did s).1
quarantine_step (op_block sender_did) s = (block_sender sender_did s).1
quarantine_step (op_delete message_id) s = (delete_quarantined message_id s).1
quarantine_step (op_sweep now) s = (sweep_expired now s).1

unfoldable pub quarantine_run : List QuarantineOp → Quarantine → Quarantine
unfolding quarantine_step
quarantine_run [] s = s
quarantine_run (op ∷ ops) s = quarantine_run ops (quarantine_step op s)

-- No id is stored twice, and no id that is still to come is stored.
pub record IsQuarantine (s : Quarantine) : Type 0 where
  pub keyed : IsKeyed s.messages
  pub fresh : (n : ℕ) → s.id_counter < n → JsMap.get (quarantine_id n) s.messages ≡ none

after_prefix : String → String
after_prefix String.[] = ""
after_prefix (String.◌∷◌ a String.[]) = ""
after_prefix (String.◌∷◌ a (String.◌∷◌ b s)) = s

after_prefix-quarantine_id : (n : ℕ) → after_prefix (quarantine_id n) ≡ decimal n
unfolding after_prefix quarantine_id
after_prefix-quarantine_id n =
    ap after_prefix (cons-append "q" "-" (decimal n))
    ∙ ap (λ s. after_prefix (String.◌∷◌ "q" s)) (cons-append "-" "" (decimal n))
    ∙ nil-append (decimal n)

quarantine_id-injective : (m n : ℕ) → quarantine_id m ≡ quarantine_id n → m ≡ n
quarantine_id-injective m n e =
    decimal-injective m n
      (sym (after_prefix-quarantine_id m) ∙ ap after_prefix e ∙ after_prefix-quarantine_id n)

quarantine_id-apart : (m n : ℕ) → m < n → (quarantine_id m == quarantine_id n) ≡ false
quarantine_id-apart m n h =
    ground (arith, eq_iff (quarantine_id m) (quarantine_id n), quarantine_id-injective m n)

pub IsQuarantine-reset : IsQuarantine reset_quarantine_state
unfolding reset_quarantine_state JsMap.get
IsQuarantine-reset = record { keyed = tt; fresh = λ n h. refl }

without-IsQuarantine :
    (p : QuarantinedMessage → Bool) (s : Quarantine)
    → IsQuarantine s
    → IsQuarantine (record s { messages = JsMap.retain p s.messages })
without-IsQuarantine p s h = record {
  keyed = IsKeyed-retain p s.messages h.keyed;
  fresh = λ n lt. get-retain-none p (quarantine_id n) s.messages (h.fresh n lt);
}

quarantine_step-IsQuarantine :
    (op : QuarantineOp) (s : Quarantine) → IsQuarantine s → IsQuarantine (quarantine_step op s)
unfolding quarantine_step quarantine_message unquarantine_sender block_sender sweep_expired
    delete_quarantined
quarantine_step-IsQuarantine (op_quarantine sender_did message_type body now) s h =
    let msg = (quarantine_message sender_did message_type body now s).0 in
    record {
      keyed = IsKeyed-set (quarantine_id (s.id_counter + 1)) msg s.messages h.keyed;
      fresh = λ n lt. ground (
        arith,
        get-set (quarantine_id (s.id_counter + 1)) (quarantine_id n) msg s.messages,
        quarantine_id-apart (s.id_counter + 1) n lt,
        h.fresh n (omega arith),
      );
    }
quarantine_step-IsQuarantine (op_unquarantine sender_did) s h =
    without-IsQuarantine (λ m. not (is_from sender_did m)) s h
quarantine_step-IsQuarantine (op_block sender_did) s h =
    without-IsQuarantine (λ m. not (is_from sender_did m)) s h
quarantine_step-IsQuarantine (op_delete message_id) s h = record {
  keyed = IsKeyed-delete message_id s.messages h.keyed;
  fresh = λ n lt. ground (arith, get-delete message_id (quarantine_id n) s.messages, h.fresh n lt);
}
quarantine_step-IsQuarantine (op_sweep now) s h =
    without-IsQuarantine (λ m. not (leb m.expires_at now)) s h

pub quarantine_run-IsQuarantine :
    (ops : List QuarantineOp) (s : Quarantine)
    → IsQuarantine s
    → IsQuarantine (quarantine_run ops s)
unfolding quarantine_run
quarantine_run-IsQuarantine [] s h = h
quarantine_run-IsQuarantine (op ∷ ops) s h =
    quarantine_run-IsQuarantine ops (quarantine_step op s) (quarantine_step-IsQuarantine op s h)

-- After any calls from the empty quarantine, a message that is quarantined gets an id that is not
-- stored: it is found under its id, and every other stored message is found as before.
pub quarantine_message-fresh :
    (ops : List QuarantineOp) (sender_did message_type body : String) (now : ℕ)
    → let s = quarantine_run ops reset_quarantine_state in
      let (msg, s') = quarantine_message sender_did message_type body now s in
      (JsMap.get msg.id s.messages ≡ none)
      × ((j : String)
          → JsMap.get j s'.messages ≡ (if msg.id == j then some msg else JsMap.get j s.messages))
unfolding quarantine_message
quarantine_message-fresh ops sender_did message_type body now =
    let s = quarantine_run ops reset_quarantine_state in
    let h = quarantine_run-IsQuarantine ops reset_quarantine_state IsQuarantine-reset in
    (
      h.fresh (s.id_counter + 1) (omega arith),
      λ j. get-set (quarantine_id (s.id_counter + 1)) j _ s.messages,
    )
