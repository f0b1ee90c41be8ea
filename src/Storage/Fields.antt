-- ===== src/Storage/Fields.antt =====
-- `ReadBits` and `WriteBits` on whole fields.
use vlse.Base.{
  ℕ, ◌+◌, ◌-◌, ◌*◌, ◌/◌, ◌%◌, ◌^◌, ◌≤◌, ◌<◌, bit_and, ◌≡◌, ap, ◌∙◌, ◌⊎◌, inl, inr, arith, dec_lt,
  List, ◌&&◌, ltb, leb, if◌then◌else◌, length, u64, ◌>>>◌,
}
use native.Mathlib.Nat.{mod-lt, one-le-pow}
use vlse.Bits.{
  bit, bit-bit_and, bit-shr, bit-mod, bit-le, bit-low_bits, bit_ext, lt_of_bits, bit_and-low_bits,
}
use vlse.Storage.Laws.{
  storage_bit, IsBytes, bit-load_window, length-store_window, bit-store_window_inside,
  bit-store_window_outside, store_window-IsBytes, low_mask-eq, bit-merge_window,
}
use vlse.Storage.{window_bytes, load_window, merge_window, read_bits, write_bits}

-- The 16-byte window at this bit position lies inside the vector.
abbrev pub HasRoom : List ℕ → ℕ → Type 0
HasRoom storage bit_position = bit_position / 8 + window_bytes ≤ length storage

module _ (storage : List ℕ) (bytes : IsBytes storage) (pos width : ℕ) (narrow : width ≤ 64) where
  pub bit-read_bits :
      (i : ℕ)
      → bit (read_bits storage pos width) i
        ≡ (if ltb i width then storage_bit storage (pos + i) else 0)
  unfolding read_bits
  bit-read_bits i =
      let window : ℕ = load_window storage (pos / 8) in
      let offset : bit_and pos 7 ≡ pos % 8 = bit_and-low_bits 3 pos in
      let place : 8 * (pos / 8) + (pos % 8 + i) ≡ pos + i = omega arith in
      rw (offset, low_mask-eq width narrow)
        (bit-bit_and (u64 (window >>> (pos % 8))) (2 ^ width - 1) i ∙ elim (dec_lt i width) [
          | yes below ↦
              let read : bit window (pos % 8 + i) ≡ storage_bit storage (pos + i) =
                bit-load_window storage bytes (pos / 8) (pos % 8 + i) (omega arith)
                ∙ ap (storage_bit storage) place in
              ground (
                arith,
                read,
                bit-low_bits width i,
                bit-mod (window >>> (pos % 8)) 64 i,
                bit-shr window (pos % 8) i,
                bit-le window (pos % 8 + i),
              )
          | no above ↦ ground (arith, bit-low_bits width i)
        ])

  pub read_bits-lt : read_bits storage pos width < 2 ^ width
  read_bits-lt = lt_of_bits width _ λ i above. bit-read_bits i ∙ ground arith

module _ (storage : List ℕ) (bytes : IsBytes storage) (pos width value : ℕ) (narrow : width ≤ 64)
    (room : HasRoom storage pos) where
  pub length-write_bits : length (write_bits storage pos width value) ≡ length storage
  unfolding write_bits
  length-write_bits = length-store_window storage (pos / 8) _ room

  pub write_bits-IsBytes : IsBytes (write_bits storage pos width value)
  unfolding write_bits
  write_bits-IsBytes = store_window-IsBytes storage (pos / 8) _ room bytes

  -- The bits of the field are those of the value; every other bit is as before.
  pub bit-write_bits :
      (i : ℕ)
      → storage_bit (write_bits storage pos width value) i
        ≡ (if leb pos i && ltb i (pos + width) then bit value (i - pos) else storage_bit storage i)
  unfolding write_bits
  bit-write_bits i =
      let window : ℕ = load_window storage (pos / 8) in
      let merged : ℕ = merge_window window (pos % 8) width value in
      let offset : bit_and pos 7 ≡ pos % 8 = bit_and-low_bits 3 pos in
      rw offset (elim (dec_lt i (8 * (pos / 8))) [
        | yes low ↦
            bit-store_window_outside storage (pos / 8) merged room i (inl low) ∙ ground arith
        | no low ↦ elim (dec_lt i (8 * (pos / 8) + 128)) [
          | no high ↦
              bit-store_window_outside storage (pos / 8) merged room i (inr (omega arith))
              ∙ ground arith
          | yes high ↦
              let j : ℕ = i - 8 * (pos / 8) in
              let place : 8 * (pos / 8) + j ≡ i = omega arith in
              let shift : j - pos % 8 ≡ i - pos = omega arith in
              let old : bit window j ≡ storage_bit storage i =
                bit-load_window storage bytes (pos / 8) j (omega arith)
                ∙ ap (storage_bit storage) place in
              let new : bit merged j ≡ (
                  if leb (pos % 8) j && ltb j (pos % 8 + width)
                  then bit value (j - pos % 8)
                  else bit window j) =
                bit-merge_window window (pos % 8) width value j narrow (omega arith)
                  (omega arith) in
              bit-store_window_inside storage (pos / 8) merged room i (omega arith) high
              ∙ new
              ∙ rw (shift, old) (ground arith)
        ]
      ])

  write_bits-lt : value % 2 ^ width < 2 ^ width
  write_bits-lt = mod-lt value (one-le-pow width 2 (omega arith))

  -- In a list of bytes, for a field of at most 64 bits whose 16-byte window lies inside the list,
  -- reading the field after writing a value returns the value modulo 2 to the field's width.
  pub read_bits-write_bits_self :
      read_bits (write_bits storage pos width value) pos width ≡ value % 2 ^ width
  read_bits-write_bits_self =
      bit_ext width _ _ (read_bits-lt _ write_bits-IsBytes pos width narrow) write_bits-lt
        λ i below.
          let cancel : pos + i - pos ≡ i = omega arith in
          bit-read_bits _ write_bits-IsBytes pos width narrow i
          ∙ ground (arith, ap (bit value) cancel, bit-write_bits (pos + i), bit-mod value width i)

  -- In a list of bytes, writing a field of at most 64 bits whose 16-byte window lies inside the
  -- list changes no other field of at most 64 bits that does not overlap it.
  pub read_bits-write_bits_disjoint :
      (pos' width' : ℕ)
      → width' ≤ 64
      → (pos + width ≤ pos') ⊎ (pos' + width' ≤ pos)
      → read_bits (write_bits storage pos width value) pos' width' ≡ read_bits storage pos' width'
  read_bits-write_bits_disjoint pos' width' narrow' apart =
      bit_ext width' _ _ (read_bits-lt _ write_bits-IsBytes pos' width' narrow')
        (read_bits-lt storage bytes pos' width' narrow')
        λ i below.
          bit-read_bits _ write_bits-IsBytes pos' width' narrow' i
          ∙ ground
              (arith, bit-write_bits (pos' + i), bit-read_bits storage bytes pos' width' narrow' i)
