-- ===== src/Sync/Tests.antt =====
-- Tests of packages/core/src/sync: a small set and the zones of an item.
use dina_mobile.Sync.LivingWindow.{is_within}
use dina_mobile.Sync.LivingWindow.{classify_zone}
use dina_mobile.Prelude.{◌*◌, false, [], ◌∷◌, ◌≡◌, refl}
use dina_mobile.JsMap
use dina_mobile.Sync.Dedup.{new_set}
use dina_mobile.Sync.Recency.{op_has, op_add, dedup_run, keys}
use dina_mobile.Sync.LivingWindow.{is_in_active_zone, ms_day}

-- A hit saves the older item: the other one is evicted.
hit_saves :
    keys
      (dedup_run (op_add "a" 1 ∷ op_add "b" 2 ∷ op_has "a" ∷ op_add "c" 3 ∷ []) (new_set 2)).items
    ≡ "a" ∷ "c" ∷ []
unfolding dedup_run keys JsMap.get JsMap.set JsMap.delete JsMap.drop_oldest
hit_saves = refl

archived : is_in_active_zone 365 0 (366 * ms_day) ≡ false
unfolding is_in_active_zone classify_zone is_within
archived = refl
