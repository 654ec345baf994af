-- ===== src/Sequencer/LocalTransport.antt =====
-- crates/synddb-sequencer/src/transport/local.rs: batches kept in memory or in an SQLite table. Both
-- the map and the table are lists in the order of their key, start_sequence. zstd is a parameter.
pub mod Laws
pub mod Tests
use Prim.Native.String.{◌++◌ as text_append}
use synddb.Prelude.{
  ℕ, Bool, false, ◌&&◌, String, Option, none, some, List, [], ◌∷◌, ltb, leb, ◌==◌, length, map,
  find, max, if◌then◌else◌, Result, ok, err, ◌>>=◌,
}
use synddb.Shared.Bytes.{Bytes}
use synddb.Shared.BatchInfo.{BatchInfo, with_hash}
use synddb.Shared.Cbor.Error.{CborError}
use synddb.Shared.Cbor.Crypto.{Crypto}
use synddb.Shared.Cbor.Cose.{Coset, extract_sequence}
use synddb.Shared.Cbor.Batch.{CborBatch, Ciborium, to_cbor, from_cbor}
use synddb.Shared.Convert.{to_signed_message_unchecked}
use synddb.Shared.Message.{SignedMessage}
use synddb.Sequencer.Batcher.{PublishMetadata, TransportError, storage, serialization}
use synddb.Validator.Error.{show}

pub record StoredBatch : Type 0 where
  pub compressed_data : Bytes
  pub uncompressed_size : ℕ
  pub content_hash : Bytes
  pub start_sequence : ℕ
  pub end_sequence : ℕ

pub data StorageInner : Type 0 where
  memory sqlite : List StoredBatch → StorageInner

pub record Codec : Type 0 where
  pub ciborium : Ciborium
  pub compress : Bytes → Result Bytes CborError
  pub decompress : Bytes → Result Bytes CborError

abbrev pub rows_of : StorageInner → List StoredBatch
rows_of (memory rows) = rows
rows_of (sqlite rows) = rows

-- `BTreeMap::insert`: a batch with the same start is replaced.
unfoldable pub insert : StoredBatch → List StoredBatch → List StoredBatch
insert b [] = b ∷ []
insert b (x ∷ xs) =
    let rest = insert b xs in
    if ltb b.start_sequence x.start_sequence
    then b ∷ x ∷ xs
    else if b.start_sequence == x.start_sequence
    then b ∷ xs
    else x ∷ rest

-- `INSERT INTO batches`, whose constraint violation is ignored: the row with the same start stays.
unfoldable pub insert_row : StoredBatch → List StoredBatch → List StoredBatch
insert_row b [] = b ∷ []
insert_row b (x ∷ xs) =
    let rest = insert_row b xs in
    if ltb b.start_sequence x.start_sequence
    then b ∷ x ∷ xs
    else if b.start_sequence == x.start_sequence
    then x ∷ xs
    else x ∷ rest

abbrev pub i64_bound : ℕ
i64_bound = 9_223_372_036_854_775_808

-- A number that does not fit into SQLite's integers makes the statement fail with an error other than
-- `SqliteFailure`, which is not looked at; any other failure of SQLite is `failure`.
abbrev pub execute :
    Option String
    → StoredBatch
    → List StoredBatch
    → List StoredBatch × Result (Unit {0}) TransportError
execute failure b rows =
    if ltb b.start_sequence i64_bound && ltb b.end_sequence i64_bound
    then elim failure [ none ↦ (insert_row b rows, ok tt) | some e ↦ (rows, err storage) ]
    else (rows, ok tt)

abbrev pub serialized : Result Bytes CborError → Result Bytes TransportError
serialized (ok raw) = ok raw
serialized (err e) = err serialization

abbrev pub stored : CborBatch → Bytes → Bytes → StoredBatch
stored batch uncompressed compressed = record {
  compressed_data = compressed;
  uncompressed_size = length uncompressed;
  content_hash = batch.content_hash;
  start_sequence = batch.start_sequence;
  end_sequence = batch.end_sequence;
}

-- The map takes the stored batch, and the statement the five parameters of its row.
abbrev pub put :
    Option String
    → CborBatch
    → Bytes
    → Bytes
    → StorageInner
    → StorageInner × Result (Unit {0}) TransportError
put failure batch uncompressed compressed (memory rows) =
    (memory (insert (stored batch uncompressed compressed) rows), ok tt)
put failure batch uncompressed compressed (sqlite rows) =
    let row : StoredBatch = record {
      start_sequence = batch.start_sequence;
      end_sequence = batch.end_sequence;
      compressed_data = compressed;
      uncompressed_size = length uncompressed;
      content_hash = batch.content_hash;
    } in
    let (rows', r) = execute failure row rows in (sqlite rows', r)

abbrev pub reference : ℕ → String
reference start_sequence = text_append "local://" (show start_sequence)

abbrev pub metadata : CborBatch → Bytes → Bytes → PublishMetadata
metadata batch uncompressed compressed = record {
  reference = reference batch.start_sequence;
  content_hash = batch.content_hash;
  compressed_bytes = length compressed;
  uncompressed_bytes = length uncompressed;
}

abbrev pub after_put :
    PublishMetadata
    → StorageInner × Result (Unit {0}) TransportError
    → StorageInner × Result PublishMetadata TransportError
after_put answer (s, ok done) = (s, ok answer)
after_put answer (s, err e) = (s, err e)

abbrev pub put_encoded :
    Option String
    → CborBatch
    → StorageInner
    → Result (Bytes × Bytes) TransportError
    → StorageInner × Result PublishMetadata TransportError
put_encoded failure batch s (ok (uncompressed, compressed)) =
    after_put (metadata batch uncompressed compressed) (put failure batch uncompressed compressed s)
put_encoded failure batch s (err e) = (s, err e)

abbrev pub data_of : Option StoredBatch → Option Bytes
data_of none = none
data_of (some b) = some b.compressed_data

abbrev pub get_batch_compressed : ℕ → StorageInner → Option Bytes
get_batch_compressed start_sequence s =
    data_of (find (λ b. b.start_sequence == start_sequence) (rows_of s))

abbrev pub list_batch_info : StorageInner → List BatchInfo
list_batch_info s =
    map (λ b. with_hash b.start_sequence b.end_sequence (reference b.start_sequence) b.content_hash)
      (rows_of s)

abbrev pub greatest : List StoredBatch → Option ℕ
greatest [] = none
greatest (b ∷ bs) = elim (greatest bs) [
  | none ↦ some b.end_sequence
  | some n ↦ some (max b.end_sequence n)
]

unfoldable pub latest_sequence : StorageInner → Option ℕ
latest_sequence s = greatest (rows_of s)

-- Of overlapping batches, the first by start; the SQL query does not say which.
abbrev pub containing : ℕ → StorageInner → Option Bytes
containing sequence s =
    data_of (find (λ b. leb b.start_sequence sequence && leb sequence b.end_sequence) (rows_of s))

module _ (codec : Codec) where
  abbrev pub to_cbor_zstd : CborBatch → Result Bytes CborError
  to_cbor_zstd batch = do cbor ← to_cbor codec.ciborium batch; codec.compress cbor

  abbrev pub from_cbor_zstd : Bytes → Result CborBatch CborError
  from_cbor_zstd raw = do cbor ← codec.decompress raw; from_cbor codec.ciborium cbor

  abbrev pub encoded : CborBatch → Result (Bytes × Bytes) TransportError
  encoded batch = do
    uncompressed ← serialized (to_cbor codec.ciborium batch)
    compressed ← serialized (to_cbor_zstd batch)
    ok (uncompressed, compressed)

  unfoldable pub publish :
      Option String
      → CborBatch
      → StorageInner
      → StorageInner × Result PublishMetadata TransportError
  unfolding insert insert_row
  publish failure batch s = put_encoded failure batch s (encoded batch)

  abbrev pub ok_of : {A : Type 0} → Result A CborError → Option A
  ok_of (ok a) = some a
  ok_of (err e) = none

  unfoldable pub get_batch : ℕ → StorageInner → Option CborBatch
  get_batch start_sequence s = elim (get_batch_compressed start_sequence s) [
    | none ↦ none
    | some raw ↦ ok_of (from_cbor_zstd raw)
  ]

  abbrev pub fetched : Option Bytes → Result (Option CborBatch) TransportError
  fetched none = ok none
  fetched (some raw) = elim (from_cbor_zstd raw) [
    | ok batch ↦ ok (some batch)
    | err e ↦ err serialization
  ]

  unfoldable pub fetch : ℕ → StorageInner → Result (Option CborBatch) TransportError
  fetch start_sequence s = fetched (get_batch_compressed start_sequence s)

  module _ (coset : Coset) (crypto : Crypto) (encode : Bytes → String) where
    abbrev pub has_sequence : ℕ → Bytes → Bool
    has_sequence sequence raw = elim (extract_sequence coset raw) [
      | ok n ↦ n == sequence
      | err e ↦ false
    ]

    -- A message that cannot be converted is passed over.
    unfoldable pub first_signed : ℕ → List Bytes → Option SignedMessage
    unfolding extract_sequence to_signed_message_unchecked
    first_signed sequence [] = none
    first_signed sequence (m ∷ ms) =
        let rest = first_signed sequence ms in
        if has_sequence sequence m
        then elim (to_signed_message_unchecked coset crypto encode m) [
          | ok s ↦ some s
          | err e ↦ rest
        ]
        else rest

    abbrev pub signed_in : ℕ → Option CborBatch → Option SignedMessage
    signed_in sequence none = none
    signed_in sequence (some batch) = first_signed sequence batch.messages

    unfoldable pub get_signed_message : ℕ → StorageInner → Option SignedMessage
    unfolding first_signed
    get_signed_message sequence s = elim (containing sequence s) [
      | none ↦ none
      | some raw ↦ signed_in sequence (ok_of (from_cbor_zstd raw))
    ]

    abbrev pub message_in : ℕ → Result CborBatch CborError → Result (Option Bytes) TransportError
    message_in sequence (ok batch) = ok (find (has_sequence sequence) batch.messages)
    message_in sequence (err e) = err serialization

    unfoldable pub get_message : ℕ → StorageInner → Result (Option Bytes) TransportError
    get_message sequence s = elim (containing sequence s) [
      | none ↦ ok none
      | some raw ↦ message_in sequence (from_cbor_zstd raw)
    ]
