-- ===== src/Producer/Purge.antt =====
-- `PurgeConfig` of producer/mod.rs. Its bits are tested, set and unset one at a time, by arithmetic.
use rust_rdkafka.Prelude.{ℕ, ◌+◌, ◌-◌, ◌/◌, ◌%◌, ◌≡◌, Bool, true, false, ◌==◌, if◌then◌else◌, arith}

pub record PurgeConfig : Type 0 where
  pub flag_bits : ℕ

-- `RD_KAFKA_PURGE_F_QUEUE`, `_INFLIGHT` and `_NON_BLOCKING`.
pub data Flag : Type 0 where
  queue_flag inflight_flag non_blocking_flag : Flag

abbrev pub bit : Flag → ℕ → ℕ
bit queue_flag bits = bits % 2
bit inflight_flag bits = bits / 2 % 2
bit non_blocking_flag bits = bits / 4 % 2

abbrev pub mask : Flag → ℕ
mask queue_flag = 1
mask inflight_flag = 2
mask non_blocking_flag = 4

-- `bits | mask` and `bits & !mask`.
abbrev pub or_mask : Flag → ℕ → ℕ
or_mask f bits = if bit f bits == 1 then bits else bits + mask f

abbrev pub and_not_mask : Flag → ℕ → ℕ
and_not_mask f bits = if bit f bits == 1 then bits - mask f else bits

unfoldable pub new : PurgeConfig
new = record { flag_bits = 0 }

unfoldable pub queue : PurgeConfig → PurgeConfig
queue c = record { flag_bits = or_mask queue_flag c.flag_bits }

unfoldable pub inflight : PurgeConfig → PurgeConfig
inflight c = record { flag_bits = or_mask inflight_flag c.flag_bits }

unfoldable pub non_blocking : PurgeConfig → PurgeConfig
non_blocking c = record { flag_bits = or_mask non_blocking_flag c.flag_bits }

unfoldable pub no_queue : PurgeConfig → PurgeConfig
no_queue c = record { flag_bits = and_not_mask queue_flag c.flag_bits }

unfoldable pub no_inflight : PurgeConfig → PurgeConfig
no_inflight c = record { flag_bits = and_not_mask inflight_flag c.flag_bits }

unfoldable pub blocking : PurgeConfig → PurgeConfig
blocking c = record { flag_bits = and_not_mask non_blocking_flag c.flag_bits }

-- The three fields that `Debug` shows.
unfoldable pub fields : PurgeConfig → Bool × Bool × Bool
fields c = (
  bit queue_flag c.flag_bits == 1,
  bit inflight_flag c.flag_bits == 1,
  bit non_blocking_flag c.flag_bits == 1,
)

-- Each method of a purge configuration sets or unsets its own flag and no other, whatever was set
-- before.
pub fields-methods :
    (c : PurgeConfig)
    → (fields (queue c) ≡ (true, (fields c).1, (fields c).2))
      × (fields (no_queue c) ≡ (false, (fields c).1, (fields c).2))
      × (fields (inflight c) ≡ ((fields c).0, true, (fields c).2))
      × (fields (no_inflight c) ≡ ((fields c).0, false, (fields c).2))
      × (fields (non_blocking c) ≡ ((fields c).0, (fields c).1, true))
      × (fields (blocking c) ≡ ((fields c).0, (fields c).1, false))
unfolding fields queue no_queue inflight no_inflight non_blocking blocking
fields-methods c =
    (ground arith, ground arith, ground arith, ground arith, ground arith, ground arith)
