-- ===== src/Shared/BatchInfo/Tests.antt =====
-- The names of batch files at concrete texts.
use synddb.Prelude.{◌≡◌, refl, none, some, arith}
use synddb.Shared.Bytes.{bytes_eq, ascii}
use synddb.Shared.Decimal.{to_decimal}
use synddb.Shared.BatchInfo.Filename.{
  parse_batch_filename, format_batch_filename, parse_batch_filename-format,
}

formatted : format_batch_filename 1 50 ≡ ascii "000000000001_000000000050.cbor.zst"
unfolding format_batch_filename to_decimal
formatted = refl

wrong_extension : parse_batch_filename (ascii "000000000001_000000000050.json") ≡ none
unfolding parse_batch_filename bytes_eq
wrong_extension = refl

parse_batch_filename-format_example :
    parse_batch_filename (format_batch_filename 1 1_000_000_000_000) ≡ some (1, 1_000_000_000_000)
parse_batch_filename-format_example =
    parse_batch_filename-format 1 1_000_000_000_000 (omega arith) (omega arith)
