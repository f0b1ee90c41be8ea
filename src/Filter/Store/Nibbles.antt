-- ===== src/Filter/Store/Nibbles.antt =====
-- The high nibbles of a bucket packed into `high_plain` and taken out again, and a fingerprint put
-- together from its low bits and its high nibble.
use native.Mathlib.Nat.{
  mod-lt, one-le-pow, div-add-mod', div-lt_iff_lt-mul, pow-le-pow_right, mod-mod, le-div_iff_mul-le,
  div-mul-le_self,
}
use vlse.Filter.Store.Fields.{mul_gap}
use vlse.Base.{
  ℕ, ◌+◌, ◌*◌, ◌/◌, ◌%◌, ◌^◌, ◌≤◌, ◌<◌, bit_and, bit_or, ◌≡◌, ◌∙◌, arith, u16, u64, ◌<<<◌, ◌>>>◌,
}
use vlse.Bits.Join.{zero-bit_or, bit_or_join, bit_or_join_low}
use vlse.Bits.{bit_and-low_bits, pow-add}
use vlse.Codec.{plain}

two_pos : 0 < 2
two_pos = omega arith

module _ (i j k l : ℕ) (hi : i < 16) (hj : j < 16) (hk : k < 16) (hl : l < 16) where
  nibbles_joined :
      bit_or (bit_or (bit_or (i <<< 12) (j <<< 8)) (k <<< 4)) l ≡ i * 4096 + j * 256 + k * 16 + l
  nibbles_joined =
      let first : bit_or (i <<< 12) (j <<< 8) ≡ (i * 16 + j) <<< 8 =
        omega (arith, bit_or_join 12 i (j * 256) (omega arith)) in
      let second : bit_or ((i * 16 + j) <<< 8) (k <<< 4) ≡ (i * 256 + j * 16 + k) <<< 4 =
        omega (arith, bit_or_join 8 (i * 16 + j) (k * 16) (omega arith)) in
      rw (first, second) (omega (arith, bit_or_join 4 (i * 256 + j * 16 + k) l (omega arith)))

  pub plain-eq : plain i j k l ≡ i * 4096 + j * 256 + k * 16 + l
  unfolding plain
  plain-eq = rw nibbles_joined (omega arith)

  -- The four rounds of `high_plain |= …`.
  pub high_plain-eq :
      bit_or
        (bit_or
          (bit_or (bit_or 0 (u16 (i <<< (3 * 4)))) (u16 (j <<< (2 * 4))))
          (u16 (k <<< (1 * 4))))
        (u16 (l <<< (0 * 4)))
      ≡ plain i j k l
  high_plain-eq =
      let ei : u16 (i <<< (3 * 4)) ≡ i <<< 12 = omega arith in
      let ej : u16 (j <<< (2 * 4)) ≡ j <<< 8 = omega arith in
      let ek : u16 (k <<< (1 * 4)) ≡ k <<< 4 = omega arith in
      let el : u16 (l <<< (0 * 4)) ≡ l = omega arith in
      rw (ei, ej, ek, el, zero-bit_or, nibbles_joined, plain-eq)

  pub plain_nibbles :
      (bit_and (plain i j k l >>> (3 * 4)) 0xf ≡ i)
      × (bit_and (plain i j k l >>> (2 * 4)) 0xf ≡ j)
      × (bit_and (plain i j k l >>> (1 * 4)) 0xf ≡ k)
      × (bit_and (plain i j k l >>> (0 * 4)) 0xf ≡ l)
  plain_nibbles = rw plain-eq (
    bit_and-low_bits 4 _ ∙ omega arith,
    bit_and-low_bits 4 _ ∙ omega arith,
    bit_and-low_bits 4 _ ∙ omega arith,
    bit_and-low_bits 4 _ ∙ omega arith,
  )

module _ (w fingerprint : ℕ) (below : fingerprint < 2 ^ (w + 4)) where
  pub high_nibble-lt : fingerprint / 2 ^ w < 16
  high_nibble-lt = (div-lt_iff_lt-mul (one-le-pow w 2 (omega arith))).1 (omega (arith, pow-add w 4))

  pub high_nibble-eq : bit_and (fingerprint >>> w) 0xf ≡ fingerprint / 2 ^ w
  high_nibble-eq = bit_and-low_bits 4 _ ∙ omega (arith, high_nibble-lt)

  pub fingerprint_joined :
      w ≤ 60 → bit_or (fingerprint % 2 ^ w) (u64 ((fingerprint / 2 ^ w) <<< w)) ≡ fingerprint
  fingerprint_joined small =
      let fits : 2 ^ (w + 4) ≤ 2 ^ 64 =
        pow-le-pow_right two_pos {i = w + 4} {j = 64} (omega arith) in
      let whole : fingerprint / 2 ^ w * 2 ^ w + fingerprint % 2 ^ w ≡ fingerprint =
        div-add-mod' fingerprint (2 ^ w) in
      let plain : u64 ((fingerprint / 2 ^ w) <<< w) ≡ (fingerprint / 2 ^ w) <<< w = omega arith in
      rw plain (
        bit_or_join_low w (fingerprint / 2 ^ w) (fingerprint % 2 ^ w)
          (mod-lt fingerprint (one-le-pow w 2 (omega arith)))
        ∙ whole)

pub div_mono : (w a b : ℕ) → a ≤ b → a / 2 ^ w ≤ b / 2 ^ w
div_mono w a b h =
    (le-div_iff_mul-le (one-le-pow w 2 (omega arith))).1 (omega (arith, div-mul-le_self a (2 ^ w)))

-- What `ReadBucket` computes for a slot, from the fields that `WriteBucket` filled.
pub slot_fingerprint :
    (w fingerprint low nibble : ℕ)
    → w ≤ 60
    → fingerprint < 2 ^ (w + 4)
    → low ≡ fingerprint % 2 ^ w % 2 ^ w
    → nibble ≡ fingerprint / 2 ^ w
    → bit_or low (u64 (nibble <<< w)) ≡ fingerprint
slot_fingerprint w fingerprint low nibble small below e h =
    rw (e, h, mod-mod) (fingerprint_joined w fingerprint below small)

-- A fingerprint read from low bits and a nibble fits the width.
pub fingerprint_read-lt :
    (w low high : ℕ)
    → w ≤ 60
    → low < 2 ^ w
    → high < 16
    → bit_or low (u64 (high <<< w)) < 2 ^ (w + 4)
fingerprint_read-lt w low high small hl hh =
    let fits : 2 ^ (w + 4) ≤ 2 ^ 64 = pow-le-pow_right two_pos {i = w + 4} {j = 64} (omega arith) in
    let power : 2 ^ (w + 4) ≡ 2 ^ w * 16 = pow-add w 4 in
    let under : high * 2 ^ w + 2 ^ w ≤ 16 * 2 ^ w = mul_gap high 16 (2 ^ w) hh in
    let plain : u64 (high <<< w) ≡ high <<< w = omega arith in
    rw plain (omega (arith, bit_or_join_low w high low hl))
