-- ===== src/Validator/Sync/Tests.antt =====
-- The validator at concrete messages. The database stands for the list of changes applied to it.
use synddb.Prelude.{
  ℕ, str_eq, length, ◌≤◌, ◌≡◌, refl, true, false, String, Option, none, some, List, [], ◌∷◌, Result,
  ok, err, ltb, leb, ◌==◌, if◌then◌else◌, arith,
}
use synddb.Shared.Bytes.{Bytes, bytes_eq}
use synddb.Shared.Message.{
  SignedMessage, verify_batch_signature, changeset, verify_signature,
  parse_cose_protected_header_fields, field_from, check_signature,
}
use synddb.Shared.Message.Tests.{codec, crypto, message, zeros, batch}
use synddb.Shared.Cbor.Crypto.{signature_from_bytes, verifying_key_from_bytes, verify_secp256k1}
use synddb.Validator.Sqlite.{Sqlite}
use synddb.Validator.Rules.{ValidationRule, pass, fail, validate_all}
use synddb.Validator.Store.{initial, set_last_sequence}
use synddb.Validator.Applier.{
  validate_changeset_schema, apply_single_changeset, apply_each, apply_message_with_rules,
  apply_changeset_message, extract_withdrawal,
}
use synddb.Validator.Applier.Laws.{apply_message_with_rules-Transacts, Transacts}
use synddb.Validator.Audit.{store}
use synddb.Validator.Sync.{
  Validator, ValidatorConfig, Env, stored_as_pending, apply_message_with_audit, process, verify,
  sync_one, sync_one_with_callback, sync_from, sync_to_head, sync_batch, sync_messages,
}
use synddb.Validator.Sync.Whole.{SyncsBatch, sync_batch-SyncsBatch}
use synddb.Validator.Sync.Head.{StopsAt, sync_to_head-StopsAt}
use synddb.Shared.BatchInfo
use synddb.Validator.SyncBatched.{BatchEnv, sync_to_head_batched}
use synddb.Validator.SyncBatched.Visits.{sync_to_head_batched-each, VisitsAll, not_over}

abbrev pub Db : Type 0
Db = List ℕ

-- A change is applied by putting it in front; the inverse of a changeset, marked by 0, takes it off.
abbrev apply_change : Db → Bytes → Result Db String
apply_change db [] = ok db
apply_change [] (b ∷ []) = ok (b ∷ [])
apply_change (d ∷ db) (b ∷ []) = ok (b ∷ d ∷ db)
apply_change [] (b ∷ c ∷ cs) = err "no row"
apply_change (d ∷ db) (b ∷ c ∷ cs) = ok db

-- Changeset 9 changes a table with 2 columns that the database does not have.
abbrev tables_of : Bytes → List (String × ℕ)
tables_of [] = []
tables_of (b ∷ bs) = if ltb b 9 then ("users", 3) ∷ [] else ("new", 2) ∷ []

abbrev pub sqlite : Sqlite Db
sqlite = record {
  changes = λ raw. ok (tables_of raw);
  column_count = λ db table. if str_eq table "users" then some 3 else some 0;
  apply_strm = λ handler db raw. apply_change db raw;
  invert_strm = λ raw. ok (0 ∷ raw);
  begin = λ db. ok tt;
  commit = λ db. ok tt;
  restore_snapshot = λ db raw. (raw, ok tt);
  decompress = λ raw. ok raw;
  read_changesets = λ raw. ok ("batch", raw ∷ []);
  read_snapshot = λ raw. ok raw;
  read_withdrawal = λ raw. ok (record { request_id = "r"; recipient = "a"; amount = "1" });
}

-- The database has at most 2 changes.
abbrev at_most_two : ValidationRule Db
at_most_two = record {
  name = "at_most_two";
  is_enabled = true;
  validate =
      λ db sequence. ok (if leb (length db) 2 then pass else fail "too many rows in the column");
}

abbrev pub config : ValidatorConfig Db
config = record {
  expected_pubkey = zeros 64;
  gap_retry_count = 1;
  gap_skip_on_failure = true;
  rules = some (at_most_two ∷ []);
}

-- The fetcher has changesets 0 to 2, and 5.
abbrev fetched : ℕ → Result (Option SignedMessage) String
fetched n =
    if ltb n 3
    then ok (some (message n changeset))
    else if n == 5
    then ok (some (message n changeset))
    else ok none

abbrev pub env : Env
env = record {
  get = fetched;
  get_latest_sequence = ok (some 5);
  now = 100;
  write_sequence = ok tt;
  write_time = ok tt;
  write_gap = ok tt;
  write_pending = ok tt;
  clear_pending = ok tt;
  shutdown = false;
}

abbrev pub fresh : Validator Db
fresh = record { conn = []; state = initial; pending = []; withdrawals = []; synced = [] }

-- Three changes break the rule, and the text of its reason has the word "column": the refused
-- changeset is taken for one with a schema mismatch and deferred.
refused_but_deferred :
    (apply_message_with_audit sqlite codec crypto config env
      (message 2 changeset)
      (record fresh { conn = 1 ∷ 0 ∷ [] })).1
    ≡ ok stored_as_pending
unfolding apply_message_with_audit apply_message_with_rules apply_changeset_message apply_each
    apply_single_changeset validate_changeset_schema validate_all store
refused_but_deferred = refl

head_reached : (sync_to_head sqlite codec crypto config 9 env fresh).1 ≡ 3
unfolding sync_to_head sync_from sync_one sync_one_with_callback process verify bytes_eq
    verify_signature parse_cose_protected_header_fields field_from check_signature
    signature_from_bytes verifying_key_from_bytes verify_secp256k1 extract_withdrawal
    apply_message_with_audit apply_message_with_rules apply_changeset_message apply_each
    apply_single_changeset validate_changeset_schema validate_all store
head_reached = refl

apply_message_with_rules-Transacts_example :
    Transacts sqlite config.rules
      (message 2 changeset)
      []
      (apply_message_with_rules sqlite config.rules (message 2 changeset) [])
apply_message_with_rules-Transacts_example =
    apply_message_with_rules-Transacts sqlite config.rules (message 2 changeset) [] refl

sync_to_head-StopsAt_example :
    (last : ℕ) × StopsAt sqlite codec crypto config env
      (sync_to_head sqlite codec crypto config 9 env fresh).1
      0
      fresh
      last
      (sync_to_head sqlite codec crypto config 9 env fresh).0
sync_to_head-StopsAt_example =
    sync_to_head-StopsAt sqlite codec crypto config 9 env 6 fresh (omega arith) ends (omega arith)
  where
    ends : (s : ℕ) → 6 ≤ s → env.get s ≡ ok none
    ends s h = ground arith

batch_synced : (sync_batch sqlite codec crypto config env batch fresh).1 ≡ ok 2
unfolding verify_batch_signature sync_batch sync_messages process verify bytes_eq verify_signature
    parse_cose_protected_header_fields field_from check_signature signature_from_bytes
    verifying_key_from_bytes verify_secp256k1 extract_withdrawal apply_message_with_audit
    apply_message_with_rules apply_changeset_message apply_each apply_single_changeset
    validate_changeset_schema validate_all store
batch_synced = refl

sync_batch-SyncsBatch_example :
    SyncsBatch sqlite codec crypto config env batch fresh
      (sync_batch sqlite codec crypto config env batch fresh)
sync_batch-SyncsBatch_example = sync_batch-SyncsBatch sqlite codec crypto config env batch fresh

-- Of three listed batches the first is over and the last two are not found.
abbrev listed : List BatchInfo.BatchInfo
listed = BatchInfo.new 0 2 "a" ∷ BatchInfo.new 3 4 "b" ∷ BatchInfo.new 5 9 "c" ∷ []

abbrev archive : BatchEnv
archive = record {
  supports_batches = true;
  list_batches = ok listed;
  get_batch_by_path = λ path. ok none;
}

abbrev three_synced : Validator Db
three_synced = record fresh { state = set_last_sequence 2 initial }

sync_to_head_batched-each_example :
    VisitsAll sqlite codec crypto config archive env
      (not_over 3 listed)
      0
      three_synced
      (sync_to_head_batched sqlite codec crypto config 9 archive env three_synced)
sync_to_head_batched-each_example =
    sync_to_head_batched-each sqlite codec crypto config 9 archive env three_synced listed refl refl
      (omega arith)
