-- ===== src/Store/Postgres/Driver.antt =====
-- What the tables give back for what was sent: a numeric in some representation of the same number,
-- a time at the resolution of the column. The driver's choices are a parameter.
use ethindexer.Common.{ℕ, suc, ◌*◌, ◌^◌, ◌≤◌, ◌<◌, ◌≡◌, ◌⊎◌, some, true, false, pos, negsuc}
use ethindexer.Domain.{Time, uint256_size}
use ethindexer.Store.Postgres.Columns.{Numeric, null_numeric, postgres_numeric}
use ethindexer.Store.Postgres.Rows.{BlockRow, TransactionRow}

pub record Driver : Type 0 where
  pub numeric : Numeric → Numeric
  pub timestamp : Time → Time

-- A finite numeric of at most 78 digits on either side of the point that stands for the number `n`.
pub record SameNumber (v : Numeric) (n : ℕ) : Type 0 where
  pub valid : v.valid ≡ true
  pub nan : v.nan ≡ false
  pub finite : v.finite ≡ true
  pub magnitude :
      (i : ℕ) × (k : ℕ) × (v.int ≡ some (pos i))
      × (((v.exp ≡ pos k) × (k ≤ 78) × (i * 10 ^ k ≡ n))
          ⊎ ((v.exp ≡ negsuc k) × (suc k ≤ 78) × (i ≡ n * 10 ^ suc k)))

-- What the column type `numeric(78, 0)` keeps: NULL, and each number of 256 bits.
pub record IsDriver (driver : Driver) : Type 0 where
  pub null : (driver.numeric null_numeric).valid ≡ false
  pub number :
      (n : ℕ) → n < uint256_size → SameNumber (driver.numeric (postgres_numeric (some (pos n)))) n

module _ (driver : Driver) where
  abbrev pub kept_block : BlockRow → BlockRow
  kept_block row = record row {
    base_fee_per_gas = driver.numeric row.base_fee_per_gas;
    indexed_at = driver.timestamp row.indexed_at;
  }

  abbrev pub kept_transaction : TransactionRow → TransactionRow
  kept_transaction row = record row {
    value = driver.numeric row.value;
    gas_price = driver.numeric row.gas_price;
    max_fee_per_gas = driver.numeric row.max_fee_per_gas;
    max_priority_fee_per_gas = driver.numeric row.max_priority_fee_per_gas;
  }
