-- ===== src/Filter/Layout/Large.antt =====
-- Lemmas on the masks of large tables, of paired_vlse/include/paired_vacuum_filter.h.
use native.Mathlib.Nat.{mul_assoc, pow-suc, one-le-pow, pow-le-pow_right}
use vlse.Base.{
  ℕ, zero, suc, ◌+◌, ◌-◌, ◌*◌, ◌/◌, ◌%◌, ◌^◌, ◌≤◌, ◌<◌, max, ◌≡◌, ◌≢◌, refl, sym, ap, ◌∙◌, arith,
  [], ◌∷◌, get_or, ok, u64, u32, dec_lt, subst, bit_and, bit_xor,
}
use vlse.Bits.{pow-add}
use vlse.Bits.Join.{bit_xor-pow}
use vlse.Filter.Layout.Ranges.{two_pos, IsLarge, large_layout-IsLarge}
use vlse.Filter.Layout.{Double, proper_alternate_range, large_layout}
use vlse.Filter.State.Alternate.{IsMask, IsLayout, segment-IsMask}
use vlse.Filter.State.{Layout, alternate}

smaller_segment : (n q b f : ℕ) → n ≡ q * 2 ^ b → 2 ^ f - 1 ≤ 2 ^ b - 1 → IsMask n (2 ^ f - 1)
smaller_segment n q b f e le =
    let fits : f ≤ b = elim (dec_lt b f) [
      | no n ↦ omega (arith, n)
      | yes l ↦ absurd (
          omega (
            arith,
            pow-le-pow_right two_pos {i = suc b} {j = f} (omega arith),
            pow-suc 2 b,
            one-le-pow b 2 (omega arith),
          ))
    ] in
    let split : 2 ^ b ≡ 2 ^ (b - f) * 2 ^ f =
      ap (λ t. 2 ^ t) (let h : b ≡ b - f + f = omega arith in h) ∙ pow-add (b - f) f in
    segment-IsMask n (q * 2 ^ (b - f)) f
      (e ∙ ap (λ t. q * t) split ∙ sym (mul_assoc q (2 ^ (b - f)) (2 ^ f)))

doubled_mask :
    (e : ℕ)
    → e ≤ 63
    → u64 (u64 ((2 ^ e - 1 + 1) * 2) + (2 ^ 64 - 1)) < 2 ^ 63
    → u64 (u64 ((2 ^ e - 1 + 1) * 2) + (2 ^ 64 - 1)) ≡ 2 ^ suc e - 1
doubled_mask e few h = elim (dec_lt e 63) [
  | yes fewer ↦ omega (
    arith,
    pow-suc 2 e,
    one-le-pow e 2 (omega arith),
    pow-le-pow_right two_pos {i = e} {j = 62} (omega arith),
  )
  | no last ↦
      let here : e ≡ 63 = omega (arith, last) in absurd (omega (arith, h, ap (λ t. 2 ^ t) here))
]

-- A mask of 1024 alone leads out of a table that is no multiple of 2048 buckets.
alternate-leaves :
    (layout : Layout)
    → get_or layout.alternate_masks 0 0 ≡ 1024
    → layout.bucket_count % 2048 ≢ 0
    → (p : ℕ) × (p < layout.bucket_count) × (layout.bucket_count ≤ alternate layout p 4)
unfolding alternate
alternate-leaves layout mask odd =
    let n : ℕ = layout.bucket_count in
    let goes : (p : ℕ) → p / 1024 % 2 ≡ 0 → alternate layout p 4 ≡ p + 1024 = λ p clear.
      ap (λ t. bit_xor p (bit_and (u32 (u32 4 * 0x5bd1e995)) t)) mask ∙ bit_xor-pow 10 p clear in
    elim (dec_lt 1024 (n % 2048)) [
      | no low ↦ (
        n - 1,
        omega (arith, odd),
        omega (arith, low, odd, goes (n - 1) (omega (arith, low, odd))),
      )
      | yes high ↦
          let p : ℕ = n - n % 2048 + 1023 in
          (p, omega (arith, high), omega (arith, high, goes p (omega (arith, high))))
    ]

module _ (d : Double) (fingerprint_bits requested : ℕ) (target_load : d.Real) (layout : Layout)
    (pos : 0 < requested) (small : requested ≤ 2 ^ 61)
    (run : large_layout d fingerprint_bits requested target_load ≡ ok layout) where
  large : IsLarge d requested target_load layout
  large = large_layout-IsLarge d fingerprint_bits requested target_load layout pos small run

  mask_at :
      (k m : ℕ)
      → get_or
          (max (large.base - 1) 1024
            ∷ (large.first - 1)
            ∷ (large.second - 1)
            ∷ u64 (u64 ((large.third - 1 + 1) * 2) + (2 ^ 64 - 1))
            ∷ [])
          k
          0
        ≡ m
      → get_or layout.alternate_masks k 0 ≡ m
  mask_at k m e = ap (λ masks. get_or masks k 0) large.masks ∙ e

  -- For 1 to 2 ^ 61 requested buckets, if the layout of a large table is computed, its first mask
  -- is above 1024 and no other mask is greater than the first, then it has at least the requested
  -- buckets and its four masks are each below a power of two that divides the bucket count.
  pub large_layout-IsLayout :
      1024 < get_or layout.alternate_masks 0 0
      → ((k : ℕ) → k < 4 → get_or layout.alternate_masks k 0 ≤ get_or layout.alternate_masks 0 0)
      → (requested ≤ layout.bucket_count) × IsLayout layout
  large_layout-IsLayout wide ordered =
      (large.rounded.above, record { nonempty = omega (arith, large.rounded.above); masks = masks })
    where
      n : ℕ
      n = layout.bucket_count

      b : ℕ
      b = large.base_power.exponent

      at_base : get_or layout.alternate_masks 0 0 ≡ 2 ^ b - 1
      at_base = let here = mask_at 0 _ refl in omega (arith, here, wide, large.base_power.power)

      segments : n ≡ large.rounded.factor * 2 ^ b
      segments = large.rounded.multiple ∙ ap (λ t. large.rounded.factor * t) large.base_power.power

      inner :
          (k f : ℕ) → k < 4 → get_or layout.alternate_masks k 0 ≡ 2 ^ f - 1 → IsMask n (2 ^ f - 1)
      inner k f below e =
          smaller_segment n large.rounded.factor b f segments
            (omega (arith, ordered k below, e, at_base))

      moved :
          (k f : ℕ)
          → k < 4
          → get_or layout.alternate_masks k 0 ≡ 2 ^ f - 1
          → IsMask n (get_or layout.alternate_masks k 0)
      moved k f below e = subst (IsMask n) (sym e) (inner k f below e)

      third_mask : get_or layout.alternate_masks 3 0 ≡ 2 ^ suc large.third_power.exponent - 1
      third_mask =
          let power : large.third ≡ 2 ^ large.third_power.exponent = large.third_power.power in
          let here = mask_at 3 _ (ap (λ t. u64 (u64 ((t - 1 + 1) * 2) + (2 ^ 64 - 1))) power) in
          here
          ∙ doubled_mask large.third_power.exponent large.third_power.few (
              omega (
                arith,
                here,
                ordered 3 (omega arith),
                at_base,
                pow-le-pow_right two_pos {i = b} {j = 63} large.base_power.few,
                one-le-pow b 2 (omega arith),
              ))

      masks : (k : ℕ) → k < 4 → IsMask n (get_or layout.alternate_masks k 0)
      masks zero below = moved 0 b below at_base
      masks (suc zero) below =
          moved 1 large.first_power.exponent below
            (mask_at 1 _ refl ∙ ap (λ t. t - 1) large.first_power.power)
      masks (suc (suc zero)) below =
          moved 2 large.second_power.exponent below
            (mask_at 2 _ refl ∙ ap (λ t. t - 1) large.second_power.power)
      masks (suc (suc (suc zero))) below = moved 3 (suc large.third_power.exponent) below third_mask
      masks (suc (suc (suc (suc k)))) below = absurd (omega arith)

  -- For 1 to 2 ^ 61 requested buckets, if the layout of a large table is computed, its base range
  -- is at most 1024 and its number of buckets is no multiple of 2048, then there is a position
  -- inside the table whose alternate, for the fingerprint 4, is outside.
  pub large_layout-leaves :
      (base : ℕ)
      → proper_alternate_range d requested 0 target_load ≡ ok base
      → base ≤ 1024
      → layout.bucket_count % 2048 ≢ 0
      → (p : ℕ) × (p < layout.bucket_count) × (layout.bucket_count ≤ alternate layout p 4)
  large_layout-leaves base based narrow odd =
      let same : base ≡ large.base =
        (let e : ok base ≡ ok large.base = sym based ∙ large.based in cc) in
      alternate-leaves layout (mask_at 0 1024 (omega (arith, same))) odd
