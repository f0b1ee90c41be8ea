-- ===== src/Filter/Layout.antt =====
-- The sizing of the table: the load formulas, `UpperPowerOfTwo`, `RoundUp`, `ProperAlternateRange`,
-- `InitializeLayout` and the constructor of paired_vlse/include/paired_vacuum_filter.h. `double`
-- and its functions are the record `Double`. The loops that double a word run on fuel 65: a word
-- of 64 bits passes every value up to 2 ^ 63 by then, and for a greater one the loop of the source
-- does not end.
pub mod Laws
pub mod Ranges
pub mod Large
pub mod Blank
use vlse.Base.{
  ℕ, zero, suc, ◌+◌, ◌-◌, ◌*◌, ◌/◌, ◌^◌, max, Bool, true, false, not, ◌&&◌, ◌==◌, ltb,
  if◌then◌else◌, List, [], ◌∷◌, replicate, Result, ok, throw, invalid_argument, out_of_fuel, ◌>>=◌,
  u64, ◌<<<◌,
}
use vlse.Filter.Bucket.{slots_per_bucket}
use vlse.Filter.State.{Setting, Layout, Filter, Statistics, capacity}
use vlse.Filter.Store.{Store, encoded_bits_per_bucket}

pub record Double : Type 1 where
  pub Real : Type 0
  pub of_size : ℕ → Real
  -- `decimal n k` is the literal n / 10 ^ k.
  pub decimal : ℕ → ℕ → Real
  pub add : Real → Real → Real
  pub sub : Real → Real → Real
  pub mul : Real → Real → Real
  pub div : Real → Real → Real
  pub log : Real → Real
  pub sqrt : Real → Real
  pub abs : Real → Real
  pub less : Real → Real → Bool
  -- `static_cast<size_t>(std::ceil(x))`.
  pub ceil_to_size : Real → ℕ

module _ (d : Double) where
  open d use {Real, of_size, decimal, add, sub, mul, div, log, sqrt, abs, less, ceil_to_size}

  abbrev pub one : Real
  one = of_size 1

  unfoldable pub load_equation_derivative : Real → Real → Real
  load_equation_derivative x c = sub (log c) (log x)

  unfoldable pub load_equation : Real → Real → Real
  load_equation x c = sub (add one (mul x (add (sub (log c) (log x)) one))) c

  -- Newton's iteration with the rounds left of its 100.
  unfoldable pub solve_from : ℕ → Real → Real → Real
  solve_from zero c x = x
  solve_from (suc rounds) c x =
      let next =
        solve_from rounds c (sub x (div (load_equation x c) (load_equation_derivative x c))) in
      if less (decimal 1 3) (abs (load_equation x c)) then next else x

  unfoldable pub solve_load_equation : Real → Real
  solve_load_equation c = solve_from 100 c (add c (decimal 1 1))

  unfoldable pub balls_in_bins_max_load : Real → Real → Real
  balls_in_bins_max_load balls bins =
      let c = div balls (mul bins (log bins)) in
      if not (less one bins)
      then balls
      else if less c (of_size 5)
      then mul (add (solve_load_equation c) one) (log bins)
      else add (div balls bins)
          (mul (decimal 15 1) (sqrt (mul (div (mul (of_size 2) balls) bins) (log bins))))

unfoldable pub round_up : ℕ → ℕ → ℕ
round_up value alignment = u64 (u64 (value + alignment - 1) / alignment * alignment)

-- `while (result < value) result <<= 1`.
unfoldable pub double_until : ℕ → ℕ → ℕ → Result ℕ
double_until zero value result = throw out_of_fuel
double_until (suc fuel) value result =
    let next = double_until fuel value (u64 (result <<< 1)) in
    if ltb result value then next else ok result

abbrev pub word_fuel : ℕ
word_fuel = 65

unfoldable pub upper_power_of_two : ℕ → Result ℕ
upper_power_of_two value = double_until word_fuel value 1

-- `logical_fingerprint_bytes_`.
unfoldable pub storage_bytes : ℕ → ℕ → ℕ
storage_bytes fingerprint_bits bucket_count =
    u64 (u64 (bucket_count * encoded_bits_per_bucket fingerprint_bits) + 7) / 8

unfoldable pub small_layout : ℕ → ℕ → Result Layout
small_layout fingerprint_bits requested = do
  segment ←
      (if ltb requested 256
        then upper_power_of_two requested
        else upper_power_of_two ((requested + 3) / 4))
  let bucket_count = round_up requested segment
  ok (record {
    bucket_count = bucket_count;
    alternate_masks = replicate 4 (segment - 1);
    logical_fingerprint_bytes = storage_bytes fingerprint_bits bucket_count;
  })

module _ (d : Double) where
  open d use {Real, of_size, decimal, mul, div, less, ceil_to_size}

  -- The test of the loop in `ProperAlternateRange`.
  unfoldable pub fits_range : ℕ → ℕ → Real → ℕ → Bool
  fits_range bucket_count occupancy_class target_load alternate_range =
      let fraction = mul (of_size (4 - occupancy_class)) (decimal 25 2) in
      less
        (balls_in_bins_max_load d
          (mul (mul (mul fraction (of_size 4)) target_load) (of_size bucket_count))
          (div (of_size bucket_count) (of_size alternate_range)))
        (mul (mul (decimal 97 2) (of_size 4)) (of_size alternate_range))

  unfoldable pub range_from_size : ℕ → ℕ → ℕ → Real → ℕ → Result ℕ
  range_from_size zero bucket_count occupancy_class target_load alternate_range = throw out_of_fuel
  range_from_size (suc fuel) bucket_count occupancy_class target_load alternate_range =
      let next =
        range_from_size fuel bucket_count occupancy_class target_load
          (u64 (alternate_range <<< 1)) in
      if ltb alternate_range bucket_count
      then if fits_range bucket_count occupancy_class target_load alternate_range
        then ok alternate_range
        else next
      else upper_power_of_two bucket_count

  unfoldable pub proper_alternate_range : ℕ → ℕ → Real → Result ℕ
  proper_alternate_range bucket_count occupancy_class target_load =
      range_from_size word_fuel bucket_count occupancy_class target_load 8

  unfoldable pub requested_buckets : ℕ → Real → ℕ
  requested_buckets maximum_items target_load =
      max 1
        (ceil_to_size (div (of_size maximum_items) (mul target_load (of_size slots_per_bucket))))

  unfoldable pub large_layout : ℕ → ℕ → Real → Result Layout
  large_layout fingerprint_bits requested target_load = do
    base_range ← proper_alternate_range requested 0 target_load
    let bucket_count = round_up requested base_range
    first ← proper_alternate_range bucket_count 1 target_load
    second ← proper_alternate_range bucket_count 2 target_load
    third ← proper_alternate_range bucket_count 3 target_load
    ok (record {
      bucket_count = bucket_count;
      alternate_masks =
          max (base_range - 1) 1024
          ∷ (first - 1)
          ∷ (second - 1)
          ∷ u64 (u64 ((third - 1 + 1) * 2) + (2 ^ 64 - 1))
          ∷ [];
      logical_fingerprint_bytes = storage_bytes fingerprint_bits bucket_count;
    })

  unfoldable pub initialize_layout : ℕ → ℕ → Real → Result Layout
  initialize_layout fingerprint_bits maximum_items target_load =
      let requested = requested_buckets maximum_items target_load in
      if ltb requested 10000
      then small_layout fingerprint_bits requested
      else large_layout fingerprint_bits requested target_load

abbrev pub no_statistics : Statistics
no_statistics = record {
  successful_inserts = 0;
  failed_inserts = 0;
  eviction_steps = 0;
  rollback_count = 0;
  maximum_eviction_chain = 0;
}

module _ (c : Setting) where
  -- The vectors that `InitializeLayout` allocates.
  unfoldable pub blank_filter : Layout → ℕ → ℕ → ℕ → Filter c
  blank_filter layout maximum_evictions hash_seed random_seed = record {
    layout = layout;
    maximum_evictions = maximum_evictions;
    hash_seed = hash_seed;
    random_engine = c.seed_engine random_seed;
    store = record {
      fingerprint_storage = replicate (layout.logical_fingerprint_bytes + 16) 0;
      payloads = replicate (u64 (layout.bucket_count * slots_per_bucket)) c.empty_payload;
    };
    filled_slots = 0;
    padded = false;
    statistics = no_statistics;
  }

module _ (c : Setting) (d : Double) where
  open d use {Real, of_size, less}

  -- The constructor.
  unfoldable pub make_filter : ℕ → Real → ℕ → ℕ → ℕ → Result (Filter c)
  make_filter maximum_items target_load maximum_evictions hash_seed random_seed =
      if maximum_items == 0
      then throw invalid_argument
      else if not (less (of_size 0) target_load && less target_load (of_size 1))
      then throw invalid_argument
      else do
        layout ← initialize_layout d c.fingerprint_bits maximum_items target_load
        ok (blank_filter c layout maximum_evictions hash_seed random_seed)
