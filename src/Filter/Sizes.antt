-- ===== src/Filter/Sizes.antt =====
-- The sizes that `PairedVacuumFilter` of paired_vlse/include/paired_vacuum_filter.h reports. The
-- size of the payload's type is a parameter.
use vlse.Base.{ℕ, ◌+◌, ◌*◌, ◌≤◌, ◌<◌, ◌≡◌, ap, ◌∙◌, sym, arith, ◌==◌, if◌then◌else◌, length, u64}
use vlse.Filter.Invariant.{IsFilter, total-occupied-le, capacity-eq}
use vlse.Filter.Layout.{Double}
use vlse.Filter.State.{Setting, Filter, capacity}

module _ (c : Setting) where
  unfoldable pub size : Filter c → ℕ
  size s = s.filled_slots

  unfoldable pub load_factor : (d : Double) → Filter c → d.Real
  load_factor d s =
      if capacity c s == 0
      then d.of_size 0
      else d.div (d.of_size s.filled_slots) (d.of_size (capacity c s))

  unfoldable pub payload_bytes : ℕ → Filter c → ℕ
  payload_bytes payload_size s = u64 (length s.store.payloads * payload_size)

  unfoldable pub total_logical_bytes : ℕ → Filter c → ℕ
  total_logical_bytes payload_size s =
      u64 (s.layout.logical_fingerprint_bytes + payload_bytes payload_size s)

  -- Sizes of a filter that satisfies the invariant: there are slots, the size is at most their number,
  -- and the payload bytes are those of all slots, modulo 2 ^ 64.
  pub size-le :
      (payload_size : ℕ) (s : Filter c)
      → IsFilter c s
      → (0 < capacity c s)
        × (size s ≤ capacity c s)
        × (payload_bytes payload_size s ≡ u64 (capacity c s * payload_size))
  unfolding size payload_bytes
  size-le payload_size s v =
      let (slots, fits) = capacity-eq c s v.sized in
      (
        omega (arith, slots, v.laid.nonempty),
        omega (arith, slots, v.counted, total-occupied-le c s.layout.bucket_count s.store),
        ap (λ n. u64 (n * payload_size)) (v.table.valid.filled ∙ sym slots),
      )
