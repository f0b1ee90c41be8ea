-- ===== src/Storage.antt =====
-- The bit storage of paired_vlse/include/paired_vacuum_filter.h: `detail::LowMask`,
-- `detail::ReadBits` and `detail::WriteBits` on a vector of bytes. `memcpy` of the 16-byte window
-- goes in the byte order of a little-endian machine. A window that leaves the vector, which C++
-- leaves undefined, reads zeros and drops what is written outside it; the laws of the children
-- hold for windows inside. The assertions that a width is from 1 to 64 are left out: a Release build,
-- which the README asks for, has none.
pub mod Laws
pub mod Fields
use vlse.Base.{
  ℕ, zero, suc, ◌+◌, ◌-◌, ◌*◌, ◌/◌, ◌%◌, ◌^◌, bit_and, bit_or, List, [], ◌∷◌, ◌++◌, ◌==◌,
  if◌then◌else◌, take, drop, u8, u64, u128, ◌<<<◌, ◌>>>◌,
}

abbrev pub window_bytes : ℕ
window_bytes = 16

-- The number that little-endian bytes spell.
unfoldable pub from_bytes : List ℕ → ℕ
from_bytes [] = 0
from_bytes (b ∷ bs) = b + 256 * from_bytes bs

-- The `n` low bytes of a number, the lowest first.
unfoldable pub to_bytes : ℕ → ℕ → List ℕ
to_bytes zero v = []
to_bytes (suc n) v = u8 v ∷ to_bytes n (v / 256)

-- `memcpy(&window, storage.data() + position, 16)`.
unfoldable pub load_window : List ℕ → ℕ → ℕ
load_window storage position = from_bytes (take window_bytes (drop position storage))

-- `memcpy(storage.data() + position, &window, 16)`.
unfoldable pub store_window : List ℕ → ℕ → ℕ → List ℕ
store_window storage position window =
    take position storage
    ++ (to_bytes window_bytes window ++ drop (position + window_bytes) storage)

unfoldable pub low_mask : ℕ → ℕ
low_mask width = if width == 64 then 2 ^ 64 - 1 else u64 (1 <<< width) - 1

unfoldable pub read_bits : List ℕ → ℕ → ℕ → ℕ
read_bits storage bit_position width =
    let byte_position = bit_position >>> 3 in
    let bit_offset = bit_and bit_position 7 in
    let window = load_window storage byte_position >>> bit_offset in
    bit_and (u64 window) (low_mask width)

-- The mask of `WriteBits`, as an `unsigned __int128`.
unfoldable pub value_mask : ℕ → ℕ
value_mask width = if width == 64 then 2 ^ 64 - 1 else u128 (1 <<< width) - 1

-- `(window & ~shifted_mask) | ((value & value_mask) << bit_offset)`.
unfoldable pub merge_window : ℕ → ℕ → ℕ → ℕ → ℕ
merge_window window bit_offset width value =
    let mask = value_mask width in
    let shifted_mask = u128 (mask <<< bit_offset) in
    bit_or (bit_and window (2 ^ 128 - 1 - shifted_mask)) (u128 (bit_and value mask <<< bit_offset))

unfoldable pub write_bits : List ℕ → ℕ → ℕ → ℕ → List ℕ
write_bits storage bit_position width value =
    let byte_position = bit_position >>> 3 in
    let bit_offset = bit_and bit_position 7 in
    store_window storage byte_position
      (merge_window (load_window storage byte_position) bit_offset width value)
