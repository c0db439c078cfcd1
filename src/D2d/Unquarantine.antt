-- ===== src/D2d/Unquarantine.antt =====
-- packages/core/src/d2d/quarantine.ts: what is released when a sender becomes a contact.
use dina_mobile.Prelude.{
  ◌+◌, String, Bool, true, not, [], ◌∷◌, ◌≡◌, refl, arith, keep, length, All, All-keep, ap,
}
use dina_mobile.JsMap
use dina_mobile.JsMap.{JsMap, kept, get-retain}
use dina_mobile.D2d.Quarantine.{
  Quarantine, QuarantinedMessage, unquarantine_sender, list_by_sender, newest_first, is_from,
}
use dina_mobile.D2d.QuarantineIds.{IsQuarantine}

module _ (p : QuarantinedMessage → Bool) where
  keep-retain-none :
      (m : JsMap QuarantinedMessage) → keep p (JsMap.values (JsMap.retain (λ x. not (p x)) m)) ≡ []
  unfolding JsMap.values JsMap.retain
  keep-retain-none [] = refl
  keep-retain-none ((k, v) ∷ m) = ground (arith, keep-retain-none m)

  length-keep-retain :
      (m : JsMap QuarantinedMessage)
      → length (keep p (JsMap.values m)) + JsMap.size (JsMap.retain (λ x. not (p x)) m)
        ≡ JsMap.size m
  unfolding JsMap.values JsMap.retain
  length-keep-retain [] = refl
  length-keep-retain ((k, v) ∷ m) = ground (arith, length-keep-retain m)

-- Un-quarantining a sender returns messages of that sender only, leaves none of that sender, keeps
-- every other stored message as it was, and loses none: what is returned and what is left are
-- together as many as before. No id is stored twice in the quarantine.
pub unquarantine_sender_lem :
    (sender_did : String) (s : Quarantine)
    → IsQuarantine s
    → let (released, s') = unquarantine_sender sender_did s in
      All (λ m. is_from sender_did m ≡ true) released
      × (list_by_sender sender_did s' ≡ [])
      × ((j : String)
          → JsMap.get j s'.messages
            ≡ kept (λ m. not (is_from sender_did m)) (JsMap.get j s.messages))
      × (length released + JsMap.size s'.messages ≡ JsMap.size s.messages)
unfolding unquarantine_sender list_by_sender newest_first
unquarantine_sender_lem sender_did s h = (
  All-keep (is_from sender_did) (JsMap.values s.messages),
  ap newest_first (keep-retain-none (is_from sender_did) s.messages),
  (λ j. get-retain (λ (m : QuarantinedMessage). not (is_from sender_did m)) j s.messages h.keyed),
  length-keep-retain (is_from sender_did) s.messages,
)
