-- ===== src/TopicPartitionList/OffsetLaws.antt =====
-- Offsets and their integer form determine one another, in the range that the form has room for.
use rust_rdkafka.Prelude.{ℕ, ◌-◌, ◌^◌, ◌≤◌, ◌<◌, ℤ, pos, negsuc, IsI64, ◌≡◌, ◌⊎◌, ◌≤ℤ◌, some, arith}
use rust_rdkafka.TopicPartitionList.Offset.{
  Offset, beginning, end, stored, invalid, offset, offset_tail, from_raw, to_raw,
}

-- The offsets whose integer form is computed without overflow.
abbrev pub Fits : Offset → Type 0
Fits (offset n) = IsI64 n
Fits (offset_tail n) = n ≤ℤ pos (2 ^ 63 - 2000)
Fits beginning = Unit
Fits end = Unit
Fits stored = Unit
Fits invalid = Unit

-- An offset that has an integer form, and whose form does not overflow, is read back from it.
pub from_raw-to_raw : (o : Offset) (r : ℤ) → Fits o → to_raw o ≡ some r → from_raw r ≡ o
unfolding from_raw to_raw
from_raw-to_raw beginning r f h = ground arith
from_raw-to_raw end r f h = ground arith
from_raw-to_raw stored r f h = ground arith
from_raw-to_raw invalid r f h = ground arith
from_raw-to_raw (offset (pos n)) r f h = ground arith
from_raw-to_raw (offset (negsuc n)) r f h = ground arith
from_raw-to_raw (offset_tail (pos n)) r f h = ground arith
from_raw-to_raw (offset_tail (negsuc n)) r f h = ground arith

-- The integers that librdkafka gives a meaning: offsets, the four logical offsets, and tails.
abbrev pub IsRaw : ℤ → Type 0
IsRaw (pos n) = n < 2 ^ 63
IsRaw (negsuc n) = (n ≤ 1) ⊎ ((n ≡ 999) ⊎ ((n ≡ 1000) ⊎ ((2000 ≤ n) × (n < 2 ^ 63))))

-- Every integer that librdkafka gives a meaning is the integer form of the offset read from it.
pub to_raw-from_raw : (r : ℤ) → IsRaw r → to_raw (from_raw r) ≡ some r
unfolding from_raw to_raw
to_raw-from_raw (pos n) h = ground arith
to_raw-from_raw (negsuc n) h = ground arith

-- A tail longer than 2^63 - 2000 overflows: its integer form is a plain offset at the far end of
-- the partition's range, and is read back as that offset.
pub to_raw-tail_overflow :
    (n : ℕ)
    → 2 ^ 63 - 2000 < n
    → n < 2 ^ 63
    → (to_raw (offset_tail (pos n)) ≡ some (pos (2 ^ 64 - 2000 - n)))
      × (from_raw (pos (2 ^ 64 - 2000 - n)) ≡ offset (pos (2 ^ 64 - 2000 - n)))
unfolding from_raw to_raw
to_raw-tail_overflow n h k = ground arith
