-- ===== src/Filter/Layout/Ranges.antt =====
-- Lemmas on the ranges of `ProperAlternateRange` and on what the layout of large tables is made of, of
-- paired_vlse/include/paired_vacuum_filter.h.
use native.Mathlib.Nat.{pow-suc, one-le-pow, pow-le-pow_right}
use vlse.Base.{
  ℕ, zero, suc, ◌+◌, ◌-◌, ◌*◌, ◌^◌, ◌≤◌, ◌<◌, max, ◌≡◌, refl, arith, [], ◌∷◌, Result, ok, >>=-eq-ok,
  u64, ltb, Bool, true, false, if◌then◌else◌, inl, inr, ◌⊎◌, ltb→lt, dec_lt, subst, ◌<<<◌,
}
use vlse.Filter.Layout.Laws.{upper_power_of_two-Returns, IsRounded, round_up-IsRounded}
use vlse.Filter.Layout.{
  Double, fits_range, range_from_size, proper_alternate_range, round_up, upper_power_of_two,
  large_layout, storage_bytes, word_fuel,
}
use vlse.Filter.State.{Layout}

pub two_pos : 0 < 2
two_pos = omega arith

-- A power of two that a 64-bit word holds, under twice a bucket count.
pub record IsPower (bucket_count r : ℕ) : Type 0 where
  pub exponent : ℕ
  pub power : r ≡ 2 ^ exponent
  pub few : exponent ≤ 63
  pub under : r < 2 * bucket_count

exponent_lt : (j k : ℕ) → 2 ^ j < 2 ^ k → j < k
exponent_lt j k h = elim (dec_lt j k) [
  | yes l ↦ l
  | no n ↦ absurd (omega (arith, pow-le-pow_right two_pos {i = k} {j = j} (omega arith)))
]

upper-IsPower :
    (value r : ℕ) → 0 < value → value ≤ 2 ^ 63 → upper_power_of_two value ≡ ok r → IsPower value r
upper-IsPower value r pos small e =
    let (r', run, v) = upper_power_of_two-Returns value pos small in
    let same : r' ≡ r = cc in
    let below : 2 ^ v.exponent < 2 ^ 64 = rw (← v.power) (omega (arith, v.least)) in
    subst (IsPower value) same (record {
      exponent = v.exponent;
      power = v.power;
      few = omega (arith, exponent_lt v.exponent 64 below);
      under = v.least;
    })

range_cases :
    (under fits : Bool) (x r : ℕ) (next upper : Result ℕ)
    → (if under then if fits then ok x else next else upper) ≡ ok r
    → ((under ≡ true) × (x ≡ r)) ⊎ ((under ≡ true) × (next ≡ ok r)) ⊎ (upper ≡ ok r)
range_cases true true x r next upper e = inl (refl, cc)
range_cases true false x r next upper e = inr (inl (refl, e))
range_cases false fits x r next upper e = inr (inr e)

module _ (d : Double) where
  open d use {Real}

  range-IsPower :
      (fuel bucket_count occupancy_class : ℕ) (target_load : Real) (k r : ℕ)
      → 0 < bucket_count
      → bucket_count ≤ 2 ^ 63
      → k ≤ 63
      → range_from_size d fuel bucket_count occupancy_class target_load (2 ^ k) ≡ ok r
      → IsPower bucket_count r
  unfolding range_from_size
  range-IsPower zero bucket_count occupancy_class target_load k r pos small few e = absurd cc
  range-IsPower (suc fuel) bucket_count occupancy_class target_load k r pos small few e =
      let doubled : k < 63 → u64 ((2 ^ k) <<< 1) ≡ 2 ^ suc k = λ fewer.
        omega (arith, pow-suc 2 k, pow-le-pow_right two_pos {i = suc k} {j = 63} (omega arith)) in
      elim (range_cases (ltb (2 ^ k) bucket_count)
        (fits_range d bucket_count occupancy_class target_load (2 ^ k)) (2 ^ k) r _ _ e) [
          | inl (under, same) ↦ subst (IsPower bucket_count) same (record {
            exponent = k;
            power = refl;
            few = few;
            under = omega (arith, ltb→lt _ _ under);
          })
          | inr (inl (under, later)) ↦
              let fewer : k < 63 = exponent_lt k 63 (omega (arith, ltb→lt _ _ under)) in
              range-IsPower fuel bucket_count occupancy_class target_load (suc k) r pos small
                (omega arith) (rw (doubled fewer) at later)
          | inr (inr upper) ↦ upper-IsPower bucket_count r pos small upper
        ]

  pub proper_alternate_range-IsPower :
      (bucket_count occupancy_class : ℕ) (target_load : Real) (r : ℕ)
      → 0 < bucket_count
      → bucket_count ≤ 2 ^ 63
      → proper_alternate_range d bucket_count occupancy_class target_load ≡ ok r
      → IsPower bucket_count r
  unfolding proper_alternate_range
  proper_alternate_range-IsPower bucket_count occupancy_class target_load r pos small e =
      range-IsPower word_fuel bucket_count occupancy_class target_load 3 r pos small (omega arith) e

  -- The ranges that the layout of a large table is made of.
  pub record IsLarge (requested : ℕ) (target_load : Real) (layout : Layout) : Type 0 where
    pub base : ℕ
    pub first : ℕ
    pub second : ℕ
    pub third : ℕ
    pub based : proper_alternate_range d requested 0 target_load ≡ ok base
    pub base_power : IsPower requested base
    pub first_power : IsPower layout.bucket_count first
    pub second_power : IsPower layout.bucket_count second
    pub third_power : IsPower layout.bucket_count third
    pub rounded : IsRounded requested base layout.bucket_count
    pub masks :
        layout.alternate_masks
        ≡ max (base - 1) 1024
          ∷ (first - 1)
          ∷ (second - 1)
          ∷ u64 (u64 ((third - 1 + 1) * 2) + (2 ^ 64 - 1))
          ∷ []

  base_facts :
      (requested : ℕ) (target_load : Real) (base : ℕ)
      → 0 < requested
      → requested ≤ 2 ^ 61
      → proper_alternate_range d requested 0 target_load ≡ ok base
      → IsPower requested base
        × IsRounded requested base (round_up requested base)
        × (0 < round_up requested base)
        × (round_up requested base ≤ 2 ^ 63)
  base_facts requested target_load base pos small run =
      let p = proper_alternate_range-IsPower requested 0 target_load base pos (omega arith) run in
      let alive : 0 < base = rw p.power (one-le-pow p.exponent 2 (omega arith)) in
      let r = round_up-IsRounded requested base alive (omega (arith, p.under)) in
      (p, r, omega (arith, r.above), omega (arith, r.least, p.under))

  pub large_layout-IsLarge :
      (fingerprint_bits requested : ℕ) (target_load : Real) (layout : Layout)
      → 0 < requested
      → requested ≤ 2 ^ 61
      → large_layout d fingerprint_bits requested target_load ≡ ok layout
      → IsLarge requested target_load layout
  unfolding large_layout
  large_layout-IsLarge fingerprint_bits requested target_load layout pos small e =
      let (base, base_run, e') = >>=-eq-ok _ _ e in
      let (first, first_run, e'') = >>=-eq-ok _ _ e' in
      let (second, second_run, e''') = >>=-eq-ok _ _ e'' in
      let (third, third_run, built) = >>=-eq-ok _ _ e''' in
      let (p, rounded, pos', inside) = base_facts requested target_load base pos small base_run in
      let n : ℕ = round_up requested base in
      let range = λ (occupancy_class m : ℕ).
        proper_alternate_range-IsPower n occupancy_class target_load m pos' inside in
      let whole : Layout = record {
        bucket_count = n;
        alternate_masks =
            max (base - 1) 1024
            ∷ (first - 1)
            ∷ (second - 1)
            ∷ u64 (u64 ((third - 1 + 1) * 2) + (2 ^ 64 - 1))
            ∷ [];
        logical_fingerprint_bytes = storage_bytes fingerprint_bits n;
      } in
      let same : whole ≡ layout = cc in
      subst (IsLarge requested target_load) same (record {
        base = base;
        first = first;
        second = second;
        third = third;
        based = base_run;
        base_power = p;
        first_power = range 1 first first_run;
        second_power = range 2 second second_run;
        third_power = range 3 third third_run;
        rounded = rounded;
        masks = refl;
      })
