-- ===== src/Storage/Laws.antt =====
-- Reading and writing bit fields, bit by bit: `WriteBits` sets the bits of its field and no other,
-- and `ReadBits` returns the bits of its field.
use vlse.Base.{
  ℕ, zero, suc, ◌+◌, ◌-◌, ◌*◌, ◌/◌, ◌%◌, ◌^◌, ◌≤◌, ◌<◌, bit_and, ◌≡◌, refl, sym, ap, ◌∙◌, ap₂,
  arith, ◌⊎◌, inl, inr, dec_lt, ℕ_discrete, ne→==, List, [], ◌∷◌, ◌++◌, ◌&&◌, ltb, leb,
  if◌then◌else◌, length, get_or, take, drop, length-take, length-drop, length-append, get_or-take,
  get_or-drop, get_or-append-lt, get_or-append-ge, u8, u64, u128, ◌<<<◌,
}
use native.Mathlib.Nat.{pow-le-pow_right}
use vlse.Bits.{
  bit, bit-le, zero-bit, bit-bit_and, bit-bit_or, bit-shl, bit-shr, bit-mod, bit-complement,
  bit-low_bits, lt_of_bits,
}
use vlse.Storage.{
  window_bytes, from_bytes, to_bytes, load_window, store_window, low_mask, value_mask, merge_window,
}

-- Bit `i` of a vector of bytes.
abbrev pub storage_bit : List ℕ → ℕ → ℕ
storage_bit storage i = bit (get_or storage (i / 8) 0) (i % 8)

abbrev pub IsBytes : List ℕ → Type 0
IsBytes storage = (i : ℕ) → get_or storage i 0 < 256

low_bit : (n b i : ℕ) → i < 8 → n % 256 ≡ b % 256 → bit n i ≡ bit b i
low_bit n b i below e =
    sym (bit-mod n 8 i ∙ inside n) ∙ ap (λ t. bit t i) e ∙ bit-mod b 8 i ∙ inside b
  where
    inside : (m : ℕ) → (if ltb i 8 then bit m i else 0) ≡ bit m i
    inside m = ground arith

bit-from_bytes : (bs : List ℕ) (i : ℕ) → IsBytes bs → bit (from_bytes bs) i ≡ storage_bit bs i
unfolding from_bytes
bit-from_bytes [] i h = zero-bit i ∙ sym (zero-bit (i % 8))
bit-from_bytes (b ∷ bs) i h = elim (dec_lt i 8) [
  | yes below ↦
      let index : i / 8 ≡ 0 = omega arith in
      let offset : i % 8 ≡ i = omega arith in
      rw (index, offset) (low_bit (b + 256 * from_bytes bs) b i below (omega arith))
  | no above ↦
      let j : ℕ = i - 8 in
      let index : i / 8 ≡ suc (j / 8) = omega arith in
      let offset : i % 8 ≡ j % 8 = omega arith in
      let position : i ≡ 8 + j = omega arith in
      let high : (b + 256 * from_bytes bs) / 2 ^ 8 ≡ from_bytes bs = omega (arith, h 0) in
      rw (index, offset)
        (ap (bit (b + 256 * from_bytes bs)) position
          ∙ sym (bit-shr (b + 256 * from_bytes bs) 8 j)
          ∙ ap (λ t. bit t j) high
          ∙ bit-from_bytes bs j (λ k. h (suc k)))
]

bit-to_bytes : (n v i : ℕ) → i < 8 * n → storage_bit (to_bytes n v) i ≡ bit v i
unfolding to_bytes
bit-to_bytes zero v i h = absurd (omega arith)
bit-to_bytes (suc n) v i h = elim (dec_lt i 8) [
  | yes below ↦
      let index : i / 8 ≡ 0 = omega arith in
      let offset : i % 8 ≡ i = omega arith in
      rw (index, offset) (low_bit (u8 v) v i below (omega arith))
  | no above ↦
      let j : ℕ = i - 8 in
      let index : i / 8 ≡ suc (j / 8) = omega arith in
      let offset : i % 8 ≡ j % 8 = omega arith in
      let position : i ≡ 8 + j = omega arith in
      rw (index, offset)
        (bit-to_bytes n (v / 256) j (omega arith) ∙ bit-shr v 8 j ∙ ap (bit v) (sym position))
]

length-to_bytes : (n v : ℕ) → length (to_bytes n v) ≡ n
unfolding to_bytes
length-to_bytes zero v = refl
length-to_bytes (suc n) v = ap suc (length-to_bytes n (v / 256))

to_bytes-IsBytes : (n v : ℕ) → IsBytes (to_bytes n v)
unfolding to_bytes
to_bytes-IsBytes zero v i = omega arith
to_bytes-IsBytes (suc n) v zero = omega arith
to_bytes-IsBytes (suc n) v (suc i) = to_bytes-IsBytes n (v / 256) i

-- Bytes of a window.
take_or :
    (n : ℕ) (xs : List ℕ) (i : ℕ) → get_or (take n xs) i 0 ≡ (if ltb i n then get_or xs i 0 else 0)
take_or zero xs i = ground arith
take_or (suc n) [] i = ground arith
take_or (suc n) (x ∷ xs) zero = ground arith
take_or (suc n) (x ∷ xs) (suc i) = take_or n xs i ∙ ground arith

module _ (storage : List ℕ) (bytes : IsBytes storage) (position : ℕ) where
  window-IsBytes : IsBytes (take window_bytes (drop position storage))
  window-IsBytes i = ground (
    arith,
    take_or window_bytes (drop position storage) i,
    get_or-drop position storage i (position + i) 0,
    bytes (position + i),
  )

  -- Bit `i` of the loaded window is bit `8 * position + i` of the storage.
  pub bit-load_window :
      (i : ℕ)
      → i < 128
      → bit (load_window storage position) i ≡ storage_bit storage (8 * position + i)
  unfolding load_window
  bit-load_window i below =
      let index : (8 * position + i) / 8 ≡ position + i / 8 = omega arith in
      let offset : (8 * position + i) % 8 ≡ i % 8 = omega arith in
      rw (index, offset)
        (bit-from_bytes _ i window-IsBytes
          ∙ ap (λ t. bit t (i % 8))
              (get_or-take window_bytes (drop position storage) (i / 8) 0 (omega arith)
                ∙ get_or-drop position storage (i / 8) (position + i / 8) 0 refl))

  load_window-lt : load_window storage position < 2 ^ 128
  unfolding load_window
  load_window-lt = lt_of_bits 128 _ λ i above.
      bit-from_bytes _ i window-IsBytes
      ∙ ap (λ t. bit t (i % 8))
          (take_or window_bytes (drop position storage) (i / 8) ∙ ground arith)
      ∙ zero-bit (i % 8)

-- The list `xs` with the block at `p` replaced by `ys`.
module _ (p n : ℕ) (xs ys : List ℕ) (fits : p + n ≤ length xs) (same : length ys ≡ n) where
  length-splice : length (take p xs ++ (ys ++ drop (p + n) xs)) ≡ length xs
  length-splice = omega (
    arith,
    length-append (take p xs) (ys ++ drop (p + n) xs),
    length-append ys (drop (p + n) xs),
    length-take p xs,
    length-drop (p + n) xs,
  )

  splice_before :
      (i : ℕ) → i < p → get_or (take p xs ++ (ys ++ drop (p + n) xs)) i 0 ≡ get_or xs i 0
  splice_before i h =
      get_or-append-lt (take p xs) _ i 0 (omega (arith, length-take p xs)) ∙ get_or-take p xs i 0 h

  splice_inside :
      (i : ℕ)
      → p ≤ i
      → i < p + n
      → get_or (take p xs ++ (ys ++ drop (p + n) xs)) i 0 ≡ get_or ys (i - p) 0
  splice_inside i h k =
      get_or-append-ge (take p xs) _ i (i - p) 0 (omega (arith, length-take p xs))
      ∙ get_or-append-lt ys _ (i - p) 0 (omega arith)

  splice_after :
      (i : ℕ) → p + n ≤ i → get_or (take p xs ++ (ys ++ drop (p + n) xs)) i 0 ≡ get_or xs i 0
  splice_after i h =
      get_or-append-ge (take p xs) _ i (i - p) 0 (omega (arith, length-take p xs))
      ∙ get_or-append-ge ys _ (i - p) (i - p - n) 0 (omega arith)
      ∙ get_or-drop (p + n) xs (i - p - n) i 0 (omega arith)

module _ (storage : List ℕ) (position window : ℕ)
    (fits : position + window_bytes ≤ length storage) where
  pub length-store_window : length (store_window storage position window) ≡ length storage
  unfolding store_window
  length-store_window =
      length-splice position window_bytes storage _ fits (length-to_bytes window_bytes window)

  -- Bit `i` of the storage after a window is stored.
  pub bit-store_window_inside :
      (i : ℕ)
      → 8 * position ≤ i
      → i < 8 * position + 128
      → storage_bit (store_window storage position window) i ≡ bit window (i - 8 * position)
  unfolding store_window
  bit-store_window_inside i low high =
      let offset : i % 8 ≡ (i - 8 * position) % 8 = omega arith in
      let index : i / 8 - position ≡ (i - 8 * position) / 8 = omega arith in
      ap (λ t. bit t (i % 8))
        (splice_inside position window_bytes storage _ fits (length-to_bytes window_bytes window)
          (i / 8) (omega arith) (omega arith))
      ∙ ap₂ (λ t u. bit (get_or (to_bytes window_bytes window) t 0) u) index offset
      ∙ bit-to_bytes window_bytes window (i - 8 * position) (omega arith)

  pub bit-store_window_outside :
      (i : ℕ)
      → (i < 8 * position) ⊎ (8 * position + 128 ≤ i)
      → storage_bit (store_window storage position window) i ≡ storage_bit storage i
  unfolding store_window
  bit-store_window_outside i (inl low) =
      ap (λ t. bit t (i % 8))
        (splice_before position window_bytes storage _ fits (length-to_bytes window_bytes window)
          (i / 8) (omega arith))
  bit-store_window_outside i (inr high) =
      ap (λ t. bit t (i % 8))
        (splice_after position window_bytes storage _ fits (length-to_bytes window_bytes window)
          (i / 8) (omega arith))

  pub store_window-IsBytes : IsBytes storage → IsBytes (store_window storage position window)
  unfolding store_window
  store_window-IsBytes bytes i = elim (dec_lt i position) [
    | yes low ↦
        rw
          (splice_before position window_bytes storage _ fits (length-to_bytes window_bytes window)
            i low)
          (bytes i)
    | no low ↦ elim (dec_lt i (position + window_bytes)) [
      | yes high ↦
          rw
            (splice_inside position window_bytes storage _ fits
              (length-to_bytes window_bytes window) i (omega arith) high)
            (to_bytes-IsBytes window_bytes window (i - position))
      | no high ↦
          rw
            (splice_after position window_bytes storage _ fits (length-to_bytes window_bytes window)
              i (omega arith))
            (bytes i)
    ]
  ]

two_pos : 0 < 2
two_pos = omega arith

pow-lt-64 : (width : ℕ) → width < 64 → 2 ^ width < 2 ^ 64
pow-lt-64 width h = omega (arith, pow-le-pow_right two_pos h)

value_mask-eq : (width : ℕ) → width ≤ 64 → value_mask width ≡ 2 ^ width - 1
unfolding value_mask
value_mask-eq width h = elim (ℕ_discrete width 64) [
  | yes e ↦ rw e
  | no ne ↦
      let small : 2 ^ width < 2 ^ 64 = pow-lt-64 width (omega arith) in
      let plain : u128 (1 <<< width) ≡ 2 ^ width = omega arith in rw (ne→== width 64 ne, plain)
]

pub low_mask-eq : (width : ℕ) → width ≤ 64 → low_mask width ≡ 2 ^ width - 1
unfolding low_mask
low_mask-eq width h = elim (ℕ_discrete width 64) [
  | yes e ↦ rw e
  | no ne ↦
      let small : 2 ^ width < 2 ^ 64 = pow-lt-64 width (omega arith) in
      let plain : u64 (1 <<< width) ≡ 2 ^ width = omega arith in rw (ne→== width 64 ne, plain)
]

-- Bit `i` of a field of `width` bits shifted to `offset`, cut to 128 bits.
bit-field :
    (value offset i : ℕ)
    → i < 128
    → bit (u128 (value <<< offset)) i ≡ (if ltb i offset then 0 else bit value (i - offset))
bit-field value offset i below =
    bit-mod (value <<< offset) 128 i ∙ (ground (arith, bit-shl value offset i))

-- Bit `i` of the merged window: the value inside the field, the old window outside it.
pub bit-merge_window :
    (window offset width value i : ℕ)
    → width ≤ 64
    → offset < 8
    → i < 128
    → bit (merge_window window offset width value) i
      ≡ (if leb offset i && ltb i (offset + width) then bit value (i - offset) else bit window i)
unfolding merge_window
bit-merge_window window offset width value i w o below =
    let mask : ℕ = 2 ^ width - 1 in
    let shifted : ℕ = u128 (mask <<< offset) in
    rw (value_mask-eq width w) (
      bit-bit_or (bit_and window (2 ^ 128 - 1 - shifted)) (u128 (bit_and value mask <<< offset)) i
      ∙ ground (
        arith,
        bit-bit_and window (2 ^ 128 - 1 - shifted) i,
        bit-complement shifted 128 i (omega arith) below,
        bit-field mask offset i below,
        bit-low_bits width (i - offset),
        bit-field (bit_and value mask) offset i below,
        bit-bit_and value mask (i - offset),
        bit-le window i,
        bit-le value (i - offset),
      ))
