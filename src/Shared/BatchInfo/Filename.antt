-- ===== src/Shared/BatchInfo/Filename.antt =====
-- crates/synddb-shared/src/types/batch.rs: the names of batch files, as the bytes of a text.
use synddb.Prelude.{
  ℕ, ◌<◌, ◌≡◌, ap, ◌∙◌, false, Option, none, some, List, [], ◌∷◌, ◌++◌, ◌==◌, arith, All, u64_mod,
}
use synddb.Shared.Bytes.{Bytes, ascii}
use synddb.Shared.Decimal.{parse, padded, split, strip_suffix}
use synddb.Shared.Decimal.Laws.{
  IsDigit, Without, padded-digits, parse-padded, split-one, split-append, strip_suffix-append,
}

abbrev pub both : Option ℕ → Option ℕ → Option (ℕ × ℕ)
both none end' = none
both (some start) none = none
both (some start) (some end') = some (start, end')

-- Two parts, no more.
abbrev pub parse_parts : List Bytes → Option (ℕ × ℕ)
parse_parts [] = none
parse_parts (start ∷ []) = none
parse_parts (start ∷ end' ∷ []) = both (parse u64_mod start) (parse u64_mod end')
parse_parts (start ∷ end' ∷ extra ∷ parts) = none

abbrev pub parse_stem : Option Bytes → Option (ℕ × ℕ)
parse_stem none = none
parse_stem (some without_ext) = parse_parts (split 95 without_ext)

unfoldable pub parse_batch_filename : Bytes → Option (ℕ × ℕ)
unfolding strip_suffix split parse
parse_batch_filename filename = parse_stem (strip_suffix (ascii ".cbor.zst") filename)

unfoldable pub format_batch_filename : ℕ → ℕ → Bytes
unfolding padded
format_batch_filename start_sequence end_sequence =
    padded start_sequence ++ 95 ∷ padded end_sequence ++ ascii ".cbor.zst"

digits-Without : (cs : Bytes) → All IsDigit cs → Without 95 cs
digits-Without [] h = tt
digits-Without (c ∷ cs) h = (no_mark c h.0, digits-Without cs h.1)
  where
    no_mark : (c : ℕ) → IsDigit c → (c == 95) ≡ false
    no_mark c d = ground (arith, d.0, d.1)

-- The name made from two numbers of 64 bits is parsed as these numbers.
pub parse_batch_filename-format :
    (start end' : ℕ)
    → start < u64_mod
    → end' < u64_mod
    → parse_batch_filename (format_batch_filename start end') ≡ some (start, end')
unfolding parse_batch_filename format_batch_filename
parse_batch_filename-format start end' hs he =
    ap parse_stem (strip_suffix-append (padded start ++ 95 ∷ padded end') (ascii ".cbor.zst"))
    ∙ ap parse_parts (
        split-append 95 (padded start) (padded end')
          (digits-Without (padded start) (padded-digits start))
        ∙ ap (λ p. padded start ∷ p)
            (split-one 95 (padded end') (digits-Without (padded end') (padded-digits end'))))
    ∙ ap (λ s. both s (parse u64_mod (padded end'))) (parse-padded start hs)
    ∙ ap (both (some start)) (parse-padded end' he)
