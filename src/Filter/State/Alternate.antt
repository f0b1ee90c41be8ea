-- ===== src/Filter/State/Alternate.antt =====
-- Lemmas on `Alternate` of paired_vlse/include/paired_vacuum_filter.h.
use native.Mathlib.Nat.{pow-le-pow_right, one-le-pow, div-lt_iff_lt-mul, mod-eq_of_lt}
use vlse.Base.{ℕ, ◌+◌, ◌-◌, ◌*◌, ◌/◌, ◌^◌, ◌<◌, bit_and, bit_xor, ◌≡◌, sym, ap, ◌∙◌, arith, get_or}
use vlse.Bits.{
  bit, bit-le, bit-bit_and, bit-bit_xor, bit-shr, bit-low_bits, bit_ext, lt-two-pow,
  bit_and-low_bits,
}
use vlse.Filter.State.{Layout, alternate}

two_pos : 0 < 2
two_pos = omega arith

-- Numbers with the same bits are equal.
pub eq_of_bits : (a b : ℕ) → ((i : ℕ) → bit a i ≡ bit b i) → a ≡ b
eq_of_bits a b h =
    bit_ext (a + b) a b
      (omega (arith, lt-two-pow a, pow-le-pow_right two_pos {i = a} {j = a + b} (omega arith)))
      (omega (arith, lt-two-pow b, pow-le-pow_right two_pos {i = b} {j = a + b} (omega arith)))
      (λ i _. h i)

pub bit_xor_cancel : (a b : ℕ) → bit_xor (bit_xor a b) b ≡ a
bit_xor_cancel a b =
    eq_of_bits _ _
      λ i. omega (arith, bit-bit_xor (bit_xor a b) b i, bit-bit_xor a b i, bit-le a i, bit-le b i)

-- For every layout, position and fingerprint, going to the alternate bucket twice leads back to the
-- position.
pub alternate-alternate :
    (layout : Layout) (position fingerprint : ℕ)
    → alternate layout (alternate layout position fingerprint) fingerprint ≡ position
unfolding alternate
alternate-alternate layout position fingerprint = bit_xor_cancel position _

-- Below a power of two that divides the number of buckets, the size of a segment.
pub record IsMask (n mask : ℕ) : Type 0 where
  pub exponent : ℕ
  pub segments : ℕ
  pub inside : mask < 2 ^ exponent
  pub divides : n ≡ segments * 2 ^ exponent

bit-above : (x k i : ℕ) → x < 2 ^ k → bit x (k + i) ≡ 0
bit-above x k i below =
    let same : bit_and x (2 ^ k - 1) ≡ x = bit_and-low_bits k x ∙ mod-eq_of_lt below in
    ap (λ t. bit t (k + i)) (sym same)
    ∙ (ground (arith, bit-bit_and x (2 ^ k - 1) (k + i), bit-low_bits k (k + i)))

-- The bits above the segment are unchanged.
same_segment : (p h mask k : ℕ) → mask < 2 ^ k → bit_xor p (bit_and h mask) / 2 ^ k ≡ p / 2 ^ k
same_segment p h mask k below =
    let x : ℕ = bit_and h mask in
    eq_of_bits _ _ λ i. ground (
      arith,
      bit-shr (bit_xor p x) k i,
      bit-shr p k i,
      bit-bit_xor p x (k + i),
      bit-bit_and h mask (k + i),
      bit-above mask k i below,
      bit-le p (k + i),
    )

lt_of_segment : (a p n q s : ℕ) → 0 < s → a / s ≡ p / s → p < n → n ≡ q * s → a < n
lt_of_segment a p n q s pos same h e =
    let inside : p / s < q = (div-lt_iff_lt-mul pos).1 (omega arith) in
    let inside' : a / s < q = rw same inside in
    omega (arith, (div-lt_iff_lt-mul {k = s} {x = a} {y = q} pos).0 inside')

pub segment-IsMask : (n q k : ℕ) → n ≡ q * 2 ^ k → IsMask n (2 ^ k - 1)
segment-IsMask n q k e = record {
  exponent = k;
  segments = q;
  inside = omega (arith, one-le-pow k 2 (omega arith));
  divides = e;
}

-- Whatever the hash, a masked step from inside the table stays inside.
masked_step : (n mask p h : ℕ) → IsMask n mask → p < n → bit_xor p (bit_and h mask) < n
masked_step n mask p h v below =
    lt_of_segment _ p n v.segments (2 ^ v.exponent) (one-le-pow v.exponent 2 (omega arith))
      (same_segment p h mask v.exponent v.inside) below v.divides

-- A table with buckets and four masks of segments.
pub record IsLayout (layout : Layout) : Type 0 where
  pub nonempty : 0 < layout.bucket_count
  pub masks : (k : ℕ) → k < 4 → IsMask layout.bucket_count (get_or layout.alternate_masks k 0)

-- In a layout whose four masks are each below a power of two that divides the bucket count, the
-- alternate of a position inside the table is inside, for every fingerprint.
pub alternate-lt :
    (layout : Layout) (position fingerprint : ℕ)
    → IsLayout layout
    → position < layout.bucket_count
    → alternate layout position fingerprint < layout.bucket_count
unfolding alternate
alternate-lt layout position fingerprint v below =
    masked_step layout.bucket_count _ position _
      (v.masks (bit_and fingerprint 3) (rw (bit_and-low_bits 2 fingerprint) (omega arith))) below
