-- ===== src/Filter/Layout/Laws.antt =====
-- Lemmas on `UpperPowerOfTwo`, `RoundUp` and the layout of small tables, of
-- paired_vlse/include/paired_vacuum_filter.h.
use native.Mathlib.Nat.{div-add-mod, mod-lt, mul_comm, pow-suc, one-le-pow, pow-le-pow_right}
use vlse.Base.{
  ℕ, zero, suc, ◌+◌, ◌-◌, ◌*◌, ◌/◌, ◌%◌, ◌^◌, ◌≤◌, ◌<◌, ◌≡◌, refl, sym, ap, ◌∙◌, arith, replicate,
  get_or, Returns, u64, ltb, Bool-cases, inl, inr, ltb→lt, ltb→ge, dec_lt, subst, ◌<<<◌,
}
use vlse.Filter.Layout.{
  round_up, double_until, upper_power_of_two, small_layout, storage_bytes, word_fuel,
}
use vlse.Filter.State.Alternate.{IsMask, IsLayout, segment-IsMask}
use vlse.Filter.State.{Layout}

-- `r` is the least power of two that is not below `value`.
pub record IsUpperPower (value r : ℕ) : Type 0 where
  pub exponent : ℕ
  pub power : r ≡ 2 ^ exponent
  pub above : value ≤ r
  pub least : r < 2 * value

two_pos : 0 < 2
two_pos = omega arith

double_until-Returns :
    (fuel value k : ℕ)
    → value ≤ 2 ^ 63
    → 64 < fuel + k
    → k ≤ 63
    → 2 ^ k < 2 * value
    → Returns (double_until fuel value (2 ^ k)) (IsUpperPower value)
unfolding double_until
double_until-Returns zero value k small enough bound least = absurd (omega arith)
double_until-Returns (suc fuel) value k small enough bound least =
    elim (Bool-cases (ltb (2 ^ k) value)) [
      | inr done ↦ (
        2 ^ k,
        rw done,
        record { exponent = k; power = refl; above = ltb→ge _ _ done; least = least },
      )
      | inl more ↦
          let below : 2 ^ k < value = ltb→lt _ _ more in
          let few : k < 63 = elim (dec_lt k 63) [
            | yes l ↦ l
            | no n ↦
                absurd (omega (arith, n, pow-le-pow_right two_pos {i = 63} {j = k} (omega arith)))
          ] in
          let doubled : u64 ((2 ^ k) <<< 1) ≡ 2 ^ suc k = omega (arith, pow-suc 2 k, few) in
          rw (more, doubled)
            (double_until-Returns fuel value (suc k) small (omega arith) (few)
              (omega (arith, pow-suc 2 k)))
    ]

-- For every value from 1 to 2 ^ 63 the loop of `UpperPowerOfTwo` ends, in the least power of two
-- that is not below the value.
pub upper_power_of_two-Returns :
    (value : ℕ)
    → 0 < value
    → value ≤ 2 ^ 63
    → Returns (upper_power_of_two value) (IsUpperPower value)
unfolding upper_power_of_two
upper_power_of_two-Returns value pos small =
    double_until-Returns word_fuel value 0 small (omega arith) (omega arith) (omega arith)

-- `RoundUp` gives the least multiple from the value on.
pub record IsRounded (value alignment r : ℕ) : Type 0 where
  pub factor : ℕ
  pub multiple : r ≡ factor * alignment
  pub above : value ≤ r
  pub least : r < value + alignment

pub round_up-IsRounded :
    (value alignment : ℕ)
    → 0 < alignment
    → value + alignment < 2 ^ 64
    → IsRounded value alignment (round_up value alignment)
unfolding round_up
round_up-IsRounded value alignment pos small =
    let top : ℕ = value + alignment - 1 in
    let multiple : ℕ = top / alignment * alignment in
    let split : multiple + top % alignment ≡ top =
      ap (λ t. t + top % alignment) (mul_comm (top / alignment) alignment)
      ∙ div-add-mod top alignment in
    let rest : top % alignment < alignment = mod-lt top pos in
    let whole : u64 top ≡ top = omega arith in
    let fits : u64 multiple ≡ multiple = omega (arith, split) in
    record {
      factor = top / alignment;
      multiple = ap (λ t. u64 (t / alignment * alignment)) whole ∙ fits;
      above = rw (whole, fits) (omega (arith, split));
      least = rw (whole, fits) (omega (arith, split));
    }

four_masks : (n a i : ℕ) → i < n → get_or (replicate n a) i 0 ≡ a
four_masks zero a i below = absurd (omega arith)
four_masks (suc n) a zero below = refl
four_masks (suc n) a (suc i) below = four_masks n a i (omega arith)

pub segment_layout :
    (fingerprint_bits n q k segment : ℕ)
    → 0 < n
    → segment ≡ 2 ^ k
    → n ≡ q * segment
    → IsLayout (record {
      bucket_count = n;
      alternate_masks = replicate 4 (segment - 1);
      logical_fingerprint_bytes = storage_bytes fingerprint_bits n;
    })
segment_layout fingerprint_bits n q k segment pos power e = record {
  nonempty = pos;
  masks = λ i below. subst (IsMask n) (sym (four_masks 4 (segment - 1) i below)) (
      subst (λ t. IsMask n (t - 1)) (sym power) (segment-IsMask n q k (e ∙ ap (λ t. q * t) power)));
}

-- What the layout of a small table is: room for the requested buckets, and masks that keep
-- positions inside.
pub record IsSmall (fingerprint_bits requested : ℕ) (layout : Layout) : Type 0 where
  pub laid : IsLayout layout
  pub enough : requested ≤ layout.bucket_count
  pub tight : layout.bucket_count < 3 * requested + 16
  pub bytes : layout.logical_fingerprint_bytes ≡ storage_bytes fingerprint_bits layout.bucket_count

from_segment :
    (fingerprint_bits requested value segment : ℕ)
    → 0 < requested
    → requested < 10000
    → value ≤ requested
    → IsUpperPower value segment
    → IsSmall fingerprint_bits requested (record {
      bucket_count = round_up requested segment;
      alternate_masks = replicate 4 (segment - 1);
      logical_fingerprint_bytes = storage_bytes fingerprint_bits (round_up requested segment);
    })
from_segment fingerprint_bits requested value segment pos small under v =
    let alive : 0 < segment = rw v.power (one-le-pow v.exponent 2 (omega arith)) in
    let r = round_up-IsRounded requested segment alive (omega (arith, v.least)) in
    let n : ℕ = round_up requested segment in
    record {
      laid =
          segment_layout fingerprint_bits n r.factor v.exponent segment (omega (arith, r.above))
            v.power r.multiple;
      enough = r.above;
      tight = omega (arith, r.least, v.least);
      bytes = refl;
    }

-- For 1 to 9999 requested buckets the layout is computed: it has at least the requested buckets and
-- fewer than three times as many and 16, masks that are each below a power of two that divides the
-- bucket count, and the number of storage bytes that belongs to the bucket count.
pub small_layout-IsSmall :
    (fingerprint_bits requested : ℕ)
    → 0 < requested
    → requested < 10000
    → Returns (small_layout fingerprint_bits requested) (IsSmall fingerprint_bits requested)
unfolding small_layout
small_layout-IsSmall fingerprint_bits requested pos small = elim (Bool-cases (ltb requested 256)) [
  | inl few ↦
      let (segment, run, v) = upper_power_of_two-Returns requested pos (omega arith) in
      (
        _,
        rw (few, run),
        from_segment fingerprint_bits requested requested segment pos small (omega arith) v,
      )
  | inr many ↦
      let (segment, run, v) =
        upper_power_of_two-Returns ((requested + 3) / 4) (omega arith) (omega arith) in
      (
        _,
        rw (many, run),
        from_segment fingerprint_bits requested ((requested + 3) / 4) segment pos small
            (omega arith) v,
      )
]
