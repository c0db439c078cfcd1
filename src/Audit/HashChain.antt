-- ===== src/Audit/HashChain.antt =====
-- packages/core/src/audit/hash_chain.ts: the entries and the chain of their hashes.
use Prim.Native.String.{◌++◌ as ◌+++◌}
use dina_mobile.Prelude.{
  ℕ, ◌+◌, String, Bool, not, Option, none, some, List, [], ◌∷◌, ◌==◌, if◌then◌else◌, decimal,
}

pub record EntryFields : Type 0 where
  pub seq : ℕ
  pub ts : ℕ
  pub actor : String
  pub action : String
  pub resource : String
  pub detail : String
  pub prev_hash : String

pub record AuditEntry : Type 0 where
  pub fields : EntryFields
  pub entry_hash : String

abbrev pub genesis_marker : String
genesis_marker = "genesis"

-- `[seq, ts, actor, action, resource, detail, prev_hash].join(':')`
unfoldable pub canonical : EntryFields → String
canonical e =
    decimal e.seq
    +++ (":"
        +++ (decimal e.ts
            +++ (":"
                +++ (e.actor
                    +++ (":"
                        +++ (e.action
                            +++ (":"
                                +++ (e.resource
                                    +++ (":" +++ (e.detail +++ (":" +++ e.prev_hash)))))))))))

unfoldable pub compute_prev_hash : String → String
compute_prev_hash previous_entry_hash =
    if previous_entry_hash == "" then genesis_marker else previous_entry_hash

-- `hash` is SHA-256 of the UTF-8 bytes of a text, in hexadecimal.
module _ (hash : String → String) where
  unfoldable pub compute_entry_hash : EntryFields → String
  compute_entry_hash e = hash (canonical e)

  unfoldable pub build_audit_entry : ℕ → ℕ → String → String → String → String → String → AuditEntry
  build_audit_entry seq ts actor action resource detail previous_entry_hash =
      let partial : EntryFields = record {
        seq = seq;
        ts = ts;
        actor = actor;
        action = action;
        resource = resource;
        detail = detail;
        prev_hash = compute_prev_hash previous_entry_hash;
      } in
      record { fields = partial; entry_hash = compute_entry_hash partial }

  -- The loop from index `i`, where `previous` is what `prev_hash` has to be: the genesis marker for
  -- the first entry, the hash of the entry before for every other. The result is `brokenAt`.
  unfoldable pub verify_from : ℕ → String → List AuditEntry → Option ℕ
  verify_from i previous [] = none
  verify_from i previous (e ∷ es) =
      let rest = verify_from (i + 1) e.entry_hash es in
      if not (e.fields.prev_hash == previous)
      then some i
      else if not (compute_entry_hash e.fields == e.entry_hash)
      then some i
      else rest

  unfoldable pub verify_chain : List AuditEntry → Option ℕ
  verify_chain entries = verify_from 0 genesis_marker entries

unfoldable pub verify_link : AuditEntry → String → Bool
verify_link e previous_entry_hash = e.fields.prev_hash == previous_entry_hash
