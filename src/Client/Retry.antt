-- ===== src/Client/Retry.antt =====
-- crates/synddb-client/src/retry.rs.
pub mod Laws
use synddb.Prelude.{ℕ, zero, suc, ◌+◌, ltb, if◌then◌else◌, Result, ok, err}

-- What the loop ends in; `unreachable` is a panic.
pub data Retried (E : Type 0) : Type 0 where
  done unreachable : Retried E
  gave_up : E → Retried E

module _ {E : Type 0} (operation : ℕ → Result (Unit {0}) E) (max_retries : ℕ) where
  unfoldable pub retry_from : ℕ → ℕ → Retried E
  retry_from attempt zero = unreachable
  retry_from attempt (suc left) =
      let rest = retry_from (attempt + 1) left in
      elim (operation attempt) [
        | ok t ↦ done
        | err e ↦ if ltb (attempt + 1) max_retries then rest else gave_up e
      ]

  unfoldable pub retry_with_backoff : Retried E
  unfolding retry_from
  retry_with_backoff = retry_from 0 max_retries
