-- ===== src/TopicPartitionList/Offset.antt =====
-- `Offset` and its integer form, an i64.
use rust_rdkafka.Prelude.{
  ℤ, pos, negsuc, ◌-ℤ◌, leb_ℤ, eqb_ℤ, wrap_i64, Option, none, some, if◌then◌else◌,
}

pub data Offset : Type 0 where
  beginning end stored invalid : Offset
  offset : ℤ → Offset
  offset_tail : ℤ → Offset

abbrev pub offset_beginning : ℤ
offset_beginning = negsuc 1

abbrev pub offset_end : ℤ
offset_end = negsuc 0

abbrev pub offset_stored : ℤ
offset_stored = negsuc 999

abbrev pub offset_invalid : ℤ
offset_invalid = negsuc 1000

abbrev pub offset_tail_base : ℤ
offset_tail_base = negsuc 1999

-- The arithmetic is that of a build without overflow checks: it wraps around.
unfoldable pub from_raw : ℤ → Offset
from_raw n =
    if eqb_ℤ n offset_beginning
    then beginning
    else if eqb_ℤ n offset_end
    then end
    else if eqb_ℤ n offset_stored
    then stored
    else if eqb_ℤ n offset_invalid
    then invalid
    else if leb_ℤ n offset_tail_base
    then offset_tail (wrap_i64 (pos 0 -ℤ wrap_i64 (n -ℤ offset_tail_base)))
    else offset n

unfoldable pub to_raw : Offset → Option ℤ
to_raw beginning = some offset_beginning
to_raw end = some offset_end
to_raw stored = some offset_stored
to_raw invalid = some offset_invalid
to_raw (offset n) = if leb_ℤ (pos 0) n then some n else none
to_raw (offset_tail n) = if leb_ℤ n (pos 0) then none else some (wrap_i64 (offset_tail_base -ℤ n))
