-- ===== src/Shared/BatchInfo.antt =====
-- crates/synddb-shared/src/types/batch.rs: the metadata of a stored batch.
pub mod Filename
pub mod Tests
use synddb.Prelude.{
  ℕ, ◌+◌, ◌-◌, ◌%◌, Bool, ◌&&◌, String, List, [], ◌∷◌, ltb, leb, if◌then◌else◌, u64_mod, zero, suc,
}

-- A hash of 32 bytes is the list of its bytes.
pub record BatchInfo : Type 0 where
  pub start_sequence : ℕ
  pub end_sequence : ℕ
  pub path : String
  pub content_hash : List ℕ

abbrev replicate : ℕ → ℕ → List ℕ
replicate zero b = []
replicate (suc n) b = b ∷ replicate n b

abbrev pub zero_hash : List ℕ
zero_hash = replicate 32 0

abbrev pub with_hash : ℕ → ℕ → String → List ℕ → BatchInfo
with_hash s e path hash = record {
  start_sequence = s;
  end_sequence = e;
  path = path;
  content_hash = hash;
}

abbrev pub new : ℕ → ℕ → String → BatchInfo
new s e path = with_hash s e path zero_hash

abbrev pub contains : BatchInfo → ℕ → Bool
contains b sequence = leb b.start_sequence sequence && leb sequence b.end_sequence

abbrev pub is_empty : BatchInfo → Bool
is_empty b = ltb b.end_sequence b.start_sequence

-- The number of messages. The sum wraps for the one range that holds every u64.
abbrev pub len : BatchInfo → ℕ
len b = if is_empty b then 0 else (b.end_sequence - b.start_sequence + 1) % u64_mod
