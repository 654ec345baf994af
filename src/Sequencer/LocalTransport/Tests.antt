-- ===== src/Sequencer/LocalTransport/Tests.antt =====
-- The local transport at concrete batches.
use synddb.Prelude.{ℕ, ◌≡◌, refl, none, some, [], ◌∷◌, ok, err, arith}
use synddb.Shared.Cbor.Error.{cbor}
use synddb.Shared.Cbor.Batch.{CborBatch, to_cbor, to_wire}
use synddb.Shared.Cbor.Tests.{batch}
use synddb.Sequencer.LocalTransport.{
  StorageInner, memory, sqlite, Codec, stored, rows_of, metadata, publish, get_batch_compressed,
}
use synddb.Sequencer.LocalTransport.Laws.{publish-Kept}

-- A batch is written as its start.
abbrev codec : Codec
codec = record {
  ciborium = record {
    into_writer = λ w. ok (w.start_sequence ∷ []);
    from_reader = λ raw. err cbor;
  };
  compress = λ raw. ok raw;
  decompress = λ raw. ok raw;
}

abbrev starting : ℕ → CborBatch
starting n = record batch { start_sequence = n; end_sequence = n }

-- A batch past SQLite's integers is answered as published, and is not there.
lost : publish codec none (starting 9_223_372_036_854_775_808) (sqlite []) ≡ (
  sqlite [],
  ok (
      metadata
        (starting 9_223_372_036_854_775_808)
        (9_223_372_036_854_775_808 ∷ [])
        (9_223_372_036_854_775_808 ∷ [])),
)
unfolding publish to_cbor to_wire
lost = refl

-- A batch with a start that is there is replaced in memory and left alone in the database.
abbrev twice : StorageInner → StorageInner
twice s =
    (publish codec none (record (starting 4) { end_sequence = 9 })
      (publish codec none (starting 4) s).0).0

replaced :
    (rows_of (twice (memory [])))
    ≡ stored (record (starting 4) { end_sequence = 9 }) (4 ∷ []) (4 ∷ []) ∷ []
unfolding publish to_cbor to_wire
replaced = refl

left_alone : (rows_of (twice (sqlite []))) ≡ stored (starting 4) (4 ∷ []) (4 ∷ []) ∷ []
unfolding publish to_cbor to_wire
left_alone = refl

publish-Kept_example :
    get_batch_compressed 42 (publish codec none batch (sqlite [])).0 ≡ some (42 ∷ [])
unfolding to_cbor to_wire
publish-Kept_example =
    (publish-Kept codec batch (42 ∷ []) (42 ∷ []) (sqlite []) refl (omega arith, omega arith) refl
        tt).1.0
      42
