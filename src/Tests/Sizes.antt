-- ===== src/Tests/Sizes.antt =====
-- Runs of the layout of large tables.
use vlse.Base.{
  ℕ, ◌/◌, ◌≤◌, ◌<◌, ◌≡◌, refl, arith, ltb, zero, suc, Result, ok, throw, replicate, [], ◌∷◌, get_or,
  ap,
}
use vlse.Filter.Layout.{
  Double, large_layout, storage_bytes, proper_alternate_range, range_from_size, fits_range,
  balls_in_bins_max_load, solve_load_equation, solve_from, load_equation, load_equation_derivative,
  upper_power_of_two, double_until, round_up,
}
use vlse.Filter.Layout.Large.{large_layout-IsLayout, large_layout-leaves}
use vlse.Filter.State.Alternate.{IsLayout}
use vlse.Filter.State.{Layout, alternate}

-- Operations with which the test of the range compares the free slots of an occupancy class with
-- a limit.
abbrev classes : ℕ → Double
classes limit = record {
  Real = ℕ;
  of_size = λ n. n;
  decimal = λ n k. n / limit;
  add = λ x y. x;
  sub = λ x y. x;
  mul = λ x y. x;
  div = λ x y. x;
  log = λ x. x;
  sqrt = λ x. x;
  abs = λ x. x;
  less = ltb;
  ceil_to_size = λ x. x;
}

abbrev layout_of : Result Layout → Layout
layout_of (ok layout) = layout
layout_of (throw e) = record {
  bucket_count = 0;
  alternate_masks = replicate 4 0;
  logical_fingerprint_bytes = 0;
}

-- Class 0 takes the whole table, the others take the least range.
abbrev wide : Layout
wide = layout_of (large_layout (classes 24) 12 10000 1)

wide_run : large_layout (classes 24) 12 10000 1 ≡ ok wide
unfolding large_layout proper_alternate_range range_from_size fits_range balls_in_bins_max_load
    solve_load_equation solve_from load_equation load_equation_derivative upper_power_of_two
    double_until round_up storage_bytes
wide_run = refl

wide_masks : wide.alternate_masks ≡ 16383 ∷ 7 ∷ 7 ∷ 15 ∷ []
unfolding large_layout proper_alternate_range range_from_size fits_range balls_in_bins_max_load
    solve_load_equation solve_from load_equation load_equation_derivative upper_power_of_two
    double_until round_up storage_bytes
wide_masks = refl

wide_ordered : (k : ℕ) → k < 4 → get_or wide.alternate_masks k 0 ≤ get_or wide.alternate_masks 0 0
unfolding large_layout proper_alternate_range range_from_size fits_range balls_in_bins_max_load
    solve_load_equation solve_from load_equation load_equation_derivative upper_power_of_two
    double_until round_up storage_bytes
wide_ordered zero below = omega arith
wide_ordered (suc zero) below = omega arith
wide_ordered (suc (suc zero)) below = omega arith
wide_ordered (suc (suc (suc zero))) below = omega arith
wide_ordered (suc (suc (suc (suc k)))) below = absurd (omega arith)

-- Every class takes the least range.
abbrev narrow : Layout
narrow = layout_of (large_layout (classes 1) 12 10000 1)

narrow_run : large_layout (classes 1) 12 10000 1 ≡ ok narrow
unfolding large_layout proper_alternate_range range_from_size fits_range balls_in_bins_max_load
    solve_load_equation solve_from load_equation load_equation_derivative upper_power_of_two
    double_until round_up storage_bytes
narrow_run = refl

narrow_base : proper_alternate_range (classes 1) 10000 0 1 ≡ ok 8
unfolding proper_alternate_range range_from_size fits_range balls_in_bins_max_load
    solve_load_equation solve_from load_equation load_equation_derivative upper_power_of_two
    double_until
narrow_base = refl

narrow_count : narrow.bucket_count ≡ 10000
unfolding large_layout proper_alternate_range range_from_size fits_range balls_in_bins_max_load
    solve_load_equation solve_from load_equation load_equation_derivative upper_power_of_two
    double_until round_up storage_bytes
narrow_count = refl

large_layout-IsLayout_example : (10000 ≤ wide.bucket_count) × IsLayout wide
large_layout-IsLayout_example =
    large_layout-IsLayout (classes 24) 12 10000 1 wide (omega arith) (omega arith) wide_run
      (omega (arith, ap (λ masks. get_or masks 0 0) wide_masks)) wide_ordered

large_layout-leaves_example :
    (p : ℕ) × (p < narrow.bucket_count) × (narrow.bucket_count ≤ alternate narrow p 4)
large_layout-leaves_example =
    large_layout-leaves (classes 1) 12 10000 1 narrow (omega arith) (omega arith) narrow_run 8
      narrow_base (omega arith) (omega (arith, narrow_count))
