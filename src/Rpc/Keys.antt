-- ===== src/Rpc/Keys.antt =====
-- packages/core/src/rpc/idempotency_cache.ts: the keys of the cache.
use Prim.Native.Char.{code}
use Prim.Native.String.{◌++◌ as ◌+++◌}
use text.Mathlib.TextLemmas.{nil-append, cons-append}
use dina_mobile.Prelude.{
  String, Bool, true, ◌≡◌, ◌&&◌, if◌then◌else◌, not, nat_eq, ◌==◌, eq_iff, sym, ap, ◌∙◌, arith,
}
use dina_mobile.Rpc.Idempotency.{cache_key}

-- No NUL stands in the text.
unfoldable pub has_no_nul : String → Bool
has_no_nul String.[] = true
has_no_nul (String.◌∷◌ c s) = not (nat_eq (code c) 0) && has_no_nul s

-- What stands before the first NUL, and after it.
before_nul : String → String
before_nul String.[] = ""
before_nul (String.◌∷◌ c s) =
    let rest = before_nul s in if nat_eq (code c) 0 then "" else String.◌∷◌ c rest

after_nul : String → String
after_nul String.[] = ""
after_nul (String.◌∷◌ c s) = let rest = after_nul s in if nat_eq (code c) 0 then s else rest

before_nul-key :
    (did id : String) → has_no_nul did ≡ true → before_nul (did +++ ("\0" +++ id)) ≡ did
unfolding has_no_nul before_nul
before_nul-key String.[] id h =
    ap before_nul (nil-append ("\0" +++ id)) ∙ ap before_nul (cons-append "\0" "" id)
before_nul-key (String.◌∷◌ c s) id h =
    ap before_nul (cons-append c s ("\0" +++ id)) ∙ ground (arith, before_nul-key s id)

after_nul-key : (did id : String) → has_no_nul did ≡ true → after_nul (did +++ ("\0" +++ id)) ≡ id
unfolding has_no_nul after_nul
after_nul-key String.[] id h =
    ap after_nul (nil-append ("\0" +++ id)) ∙ ap after_nul (cons-append "\0" "" id) ∙ nil-append id
after_nul-key (String.◌∷◌ c s) id h =
    ap after_nul (cons-append c s ("\0" +++ id)) ∙ ground (arith, after_nul-key s id)

-- Senders with no NUL in their DIDs share a key only if they are one sender, with one request.
pub cache_key-same :
    (did id did' id' : String)
    → has_no_nul did ≡ true
    → has_no_nul did' ≡ true
    → (cache_key did id == cache_key did' id') ≡ (did == did' && id == id')
unfolding cache_key
cache_key-same did id did' id' h h' =
    let before = λ (e : cache_key did id ≡ cache_key did' id').
      sym (before_nul-key did id h) ∙ ap before_nul e ∙ before_nul-key did' id' h' in
    let after = λ (e : cache_key did id ≡ cache_key did' id').
      sym (after_nul-key did id h) ∙ ap after_nul e ∙ after_nul-key did' id' h' in
    ground (
      arith,
      before,
      after,
      eq_iff (cache_key did id) (cache_key did' id'),
      eq_iff did did',
      eq_iff id id',
    )
