-- ===== src/CheckEndian.antt =====
-- src/check_endian.cc: the order of the bytes of a number in memory.
mod Tests
use high_performance_linux_s.Base.{ℕ, ◌&&◌, ◌==◌, if◌then◌else◌}

-- The three texts.
pub data Endian : Type 0 where
  big_endian : Endian
  little_endian : Endian
  unknown_endian : Endian

-- `ByteOrder`. The machine is a parameter: the two bytes that a `short` is stored in, the first one
-- at the lower address.
unfoldable pub byte_order : (stored : ℕ → ℕ × ℕ) → Endian
byte_order stored =
    let (first, second) = stored 258 in
    if (first == 1) && (second == 2)
    then big_endian
    else if (first == 2) && (second == 1)
    then little_endian
    else unknown_endian
