-- ===== src/Filter/Invariant.antt =====
-- The invariant of the filter: a layout, sorted buckets, and a slot count that is the number of
-- occupied slots.

use vlse.Base.{ℕ, zero, suc, ◌-◌, ◌*◌, ◌^◌, ◌≤◌, ◌<◌, ◌≡◌, refl, arith, Bool}
use vlse.Filter.Bucket.{Record, is_occupied, slots_per_bucket}
use vlse.Filter.Bucket.Laws.{occupied-count, occupied-le-length}
use vlse.Filter.State.Alternate.{IsLayout}
use vlse.Filter.State.Journal.{IsTable}
use vlse.Filter.State.{Setting, Layout, Filter, capacity, read}
use vlse.Filter.Store.Fields.{IsSized}
use vlse.Filter.Store.Laws.{length-read_bucket}
use vlse.Filter.Store.{Store}
use vlse.Filter.Total.{IsMovable, total, sum_below}

unfoldable pub occupied_anywhere : {Payload : Type 0} → ℕ → Record Payload → Bool
occupied_anywhere p r = is_occupied r

pub record IsFilter (c : Setting) (s : Filter c) : Type 0 where
  pub laid : IsLayout s.layout
  pub sized : IsSized c.fingerprint_bits s.layout.bucket_count
  pub table : IsTable c s.layout.bucket_count s.store
  pub counted : s.filled_slots ≡ total c s.layout.bucket_count occupied_anywhere s.store

module _ (c : Setting) where
  open c use {Payload, fingerprint_bits, empty_payload}

  pub occupied-IsMovable : (layout : Layout) → IsMovable c layout occupied_anywhere
  unfolding occupied_anywhere
  occupied-IsMovable layout = record { rejects = λ p r e. ground arith; moves = λ p r. refl }

  pub total-occupied-le :
      (n : ℕ) (s : Store Payload) → total c n occupied_anywhere s ≤ n * slots_per_bucket
  unfolding total sum_below occupied_anywhere
  total-occupied-le zero s = omega arith
  total-occupied-le (suc n) s = omega (
    arith,
    total-occupied-le n s,
    occupied-count (read c s n),
    occupied-le-length (read c s n),
    length-read_bucket fingerprint_bits empty_payload s n,
  )

pub slots_fit : (n f : ℕ) → 5 ≤ f → n * (4 * (f - 1)) < 2 ^ 64 → n * 4 < 2 ^ 64
slots_fit n f wide h = grind arith

pub capacity-eq :
    (c : Setting) (s : Filter c)
    → IsSized c.fingerprint_bits s.layout.bucket_count
    → (capacity c s ≡ s.layout.bucket_count * slots_per_bucket)
      × (s.layout.bucket_count * slots_per_bucket < 2 ^ 64)
unfolding capacity
capacity-eq c s sized =
    let fits : s.layout.bucket_count * 4 < 2 ^ 64 =
      slots_fit s.layout.bucket_count c.fingerprint_bits sized.wide sized.addressable in
    (omega arith, fits)
