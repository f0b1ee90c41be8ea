-- ===== src/Filter/Layout/Blank.antt =====
-- Lemmas on the vectors that the constructor of paired_vlse/include/paired_vacuum_filter.h allocates.
use native.Mathlib.Nat.{mul-le-mul, mod-eq_of_lt, one-le-pow, zero-div}
use vlse.Base.{
  true, ◌==◌, lt→ltb, if◌then◌else◌, ltb, ◌/◌, ℕ, zero, suc, ◌+◌, ◌-◌, ◌*◌, ◌%◌, ◌^◌, ◌≤◌, ◌<◌, ◌≡◌,
  refl, sym, ap, ◌∙◌, arith, false, [], ◌∷◌, replicate, get_or, get_or-replicate, length-replicate,
  Returns, bit_and, u64, ◌>>>◌, ◌<<<◌, subst, map, range,
}
use vlse.Bits.{bit_ext, bit, zero-bit}
use vlse.Codec.Laws.{decode-zero}
use vlse.Codec.{codec}
use vlse.Filter.Bucket.{Record, Bucket, slots_per_bucket}
use vlse.Filter.Bucket.Laws.{IsSorted, count}
use vlse.Filter.Invariant.{slots_fit, IsFilter, occupied_anywhere}
use vlse.Filter.Layout.{
  Double, make_filter, initialize_layout, requested_buckets, blank_filter, storage_bytes,
}
use vlse.Filter.Layout.Laws.{IsSmall, small_layout-IsSmall}
use vlse.Filter.State.Alternate.{IsLayout}
use vlse.Filter.State.Journal.{IsTable}
use vlse.Filter.State.{Setting, Layout, Filter, read}
use vlse.Filter.Store.Fields.{IsSized}
use vlse.Filter.Store.{
  Store, read_bucket, read_slot, low_width, encoded_bits_per_bucket, field_start,
}
use vlse.Filter.Total.{total, sum_below}
use vlse.Storage.Fields.{bit-read_bits, read_bits-lt}
use vlse.Storage.Laws.{IsBytes}
use vlse.Storage.{read_bits}

whole_bytes : (t : ℕ) → t + 7 < 2 ^ 64 → u64 (u64 t + 7) / 8 ≡ (t + 7) / 8
whole_bytes t h = omega arith

zeros-IsBytes : (n : ℕ) → IsBytes (replicate n 0)
zeros-IsBytes n i = omega (arith, get_or-replicate {A = ℕ} n i 0)

read_bits-zeros : (n pos width : ℕ) → width ≤ 64 → read_bits (replicate n 0) pos width ≡ 0
read_bits-zeros n pos width narrow =
    bit_ext width _ 0 (read_bits-lt _ (zeros-IsBytes n) pos width narrow)
      (one-le-pow width 2 (omega arith))
      (λ i _. bit-read_bits _ (zeros-IsBytes n) pos width narrow i ∙ bits i)
  where
    bits :
        (i : ℕ)
        → (if ltb i width
            then bit (get_or (replicate n 0) ((pos + i) / 8) 0) ((pos + i) % 8)
            else 0)
          ≡ bit 0 i
    bits i =
        ground (
          arith,
          get_or-replicate {A = ℕ} n ((pos + i) / 8) 0,
          zero-bit i,
          zero-bit ((pos + i) % 8),
        )

module _ (f n m : ℕ) (narrow : f ≤ 64) {Payload : Type 0} (empty : Payload) where
  abbrev pub blank_store : Store Payload
  blank_store = record { fingerprint_storage = replicate n 0; payloads = replicate m empty }

  abbrev pub no_record : Record Payload
  no_record = record { fingerprint = 0; payload = empty }

  read_slot-blank : (p slot : ℕ) → read_slot f empty blank_store p 0 slot ≡ no_record
  unfolding read_slot
  read_slot-blank p slot =
      let low = read_bits-zeros n (field_start f p (3 - slot)) (low_width f) (omega arith) in
      let high : bit_and (0 >>> ((3 - slot) * 4)) 0xf ≡ 0 =
        ap (λ t. bit_and t 0xf) (zero-div (2 ^ ((3 - slot) * 4))) in
      let shifted : u64 (0 <<< low_width f) ≡ 0 = omega arith in
      rw (low, high, shifted, get_or-replicate m (p * slots_per_bucket + slot) empty)

  pub read_bucket-blank :
      (p : ℕ)
      → read_bucket f empty blank_store p ≡ no_record ∷ no_record ∷ no_record ∷ no_record ∷ []
  unfolding read_bucket
  read_bucket-blank p =
      let slots : ℕ → Bucket Payload =
        λ decoded. map (read_slot f empty blank_store p decoded) (range slots_per_bucket) in
      ap (λ e. slots (codec.decode (e % 2 ^ 16)))
        (read_bits-zeros n (field_start f p 4) 12 (omega arith))
      ∙ ap slots decode-zero
      ∙ rw (read_slot-blank p 0, read_slot-blank p 1, read_slot-blank p 2, read_slot-blank p 3)

module _ (c : Setting) (layout : Layout) (laid : IsLayout layout)
    (sized : IsSized c.fingerprint_bits layout.bucket_count)
    (bytes : layout.logical_fingerprint_bytes
      ≡ storage_bytes c.fingerprint_bits layout.bucket_count)
    (roomy : layout.bucket_count * encoded_bits_per_bucket c.fingerprint_bits + 7 < 2 ^ 64)
    (maximum_evictions hash_seed random_seed : ℕ) where
  open c use {Payload, fingerprint_bits, empty_payload}

  abbrev pub blank : Filter c
  blank = blank_filter c layout maximum_evictions hash_seed random_seed

  abbrev bare : Bucket Payload
  bare =
      let r =
        no_record fingerprint_bits (layout.logical_fingerprint_bytes + 16)
          (u64 (layout.bucket_count * slots_per_bucket)) sized.narrow empty_payload in
      r ∷ r ∷ r ∷ r ∷ []

  read-blank : (q : ℕ) → read c blank.store q ≡ bare
  unfolding blank_filter
  read-blank q =
      read_bucket-blank fingerprint_bits (layout.logical_fingerprint_bytes + 16)
        (u64 (layout.bucket_count * slots_per_bucket)) sized.narrow empty_payload q

  bare-IsSorted : IsSorted bare
  bare-IsSorted =
      let p : 0 < 1 = omega arith in ((p, (p, (p, tt))), ((p, (p, tt)), ((p, tt), (tt, tt))))

  bare_count : (p : ℕ) → count (occupied_anywhere p) bare ≡ 0
  unfolding count occupied_anywhere
  bare_count p = refl

  blank-IsTable : IsTable c layout.bucket_count blank.store
  unfolding blank_filter storage_bytes
  blank-IsTable = record {
    valid = record {
      storage = record {
        bytes = zeros-IsBytes (layout.logical_fingerprint_bytes + 16);
        guarded =
            length-replicate {A = ℕ} (layout.logical_fingerprint_bytes + 16) 0
            ∙ ap (λ t. t + 16) (bytes ∙ whole_bytes _ roomy);
      };
      filled =
          length-replicate (u64 (layout.bucket_count * slots_per_bucket)) empty_payload
          ∙ mod-eq_of_lt
              (slots_fit layout.bucket_count fingerprint_bits sized.wide sized.addressable);
    };
    sorted = λ q below. subst IsSorted (sym (read-blank q)) bare-IsSorted;
  }

  blank_total : (n : ℕ) → total c n occupied_anywhere blank.store ≡ 0
  unfolding total sum_below
  blank_total zero = refl
  blank_total (suc n) =
      omega (arith, blank_total n, ap (count (occupied_anywhere n)) (read-blank n), bare_count n)

  -- The filter that the constructor builds on a layout satisfies the invariant.
  pub blank-IsFilter : IsFilter c blank
  unfolding blank_filter
  blank-IsFilter = record {
    laid = laid;
    sized = sized;
    table = blank-IsTable;
    counted = sym (blank_total layout.bucket_count);
  }

small_bits : (f n e : ℕ) → f ≤ 64 → n < 30016 → e ≡ 4 * (f - 1) → n * e + 7 < 2 ^ 64
small_bits f n e narrow few size =
    omega (arith, mul-le-mul {n₁ = n} {m₁ = e} {n₂ = 30016} {m₂ = 252} (omega arith) (omega arith))

module _ (c : Setting) (d : Double) (wide : 5 ≤ c.fingerprint_bits)
    (narrow : c.fingerprint_bits ≤ 64) where
  open c use {fingerprint_bits}
  open d use {Real, of_size, less}

  -- What the constructor returns for fewer than 10000 requested buckets.
  pub record IsFresh (requested : ℕ) (s : Filter c) : Type 0 where
    pub valid : IsFilter c s
    pub enough : requested ≤ s.layout.bucket_count
    pub unpadded : s.padded ≡ false
    pub unfilled : s.filled_slots ≡ 0

  small-IsFresh :
      (requested : ℕ) (layout : Layout) (maximum_evictions hash_seed random_seed : ℕ)
      → requested < 10000
      → IsSmall fingerprint_bits requested layout
      → IsFresh requested (blank_filter c layout maximum_evictions hash_seed random_seed)
  unfolding blank_filter
  small-IsFresh requested layout maximum_evictions hash_seed random_seed few v =
      let roomy : layout.bucket_count * encoded_bits_per_bucket fingerprint_bits + 7 < 2 ^ 64 =
        small_bits fingerprint_bits layout.bucket_count _ narrow (omega (arith, v.tight)) refl in
      record {
        valid =
            blank-IsFilter c layout v.laid
              (record { wide = wide; narrow = narrow; addressable = omega arith }) v.bytes roomy
              maximum_evictions hash_seed random_seed;
        enough = v.enough;
        unpadded = refl;
        unfilled = refl;
      }

  -- With 5 to 64 fingerprint bits, at least one item, a target load strictly between 0 and 1 and
  -- fewer than 10000 requested buckets, the constructor returns a filter that satisfies the
  -- invariant, has at least the requested buckets, is not padded and counts no filled slot.
  pub make_filter-IsFresh :
      (maximum_items : ℕ) (target_load : Real) (maximum_evictions hash_seed random_seed : ℕ)
      → maximum_items == 0 ≡ false
      → less (of_size 0) target_load ≡ true
      → less target_load (of_size 1) ≡ true
      → requested_buckets d maximum_items target_load < 10000
      → Returns
          (make_filter c d maximum_items target_load maximum_evictions hash_seed random_seed)
          (IsFresh (requested_buckets d maximum_items target_load))
  unfolding make_filter initialize_layout
  make_filter-IsFresh maximum_items target_load maximum_evictions hash_seed random_seed some_items
        above below few =
      let requested : ℕ = requested_buckets d maximum_items target_load in
      let pos : 0 < requested = unfold requested_buckets in omega arith in
      let (layout, run, v) = small_layout-IsSmall fingerprint_bits requested pos few in
      let small : ltb requested 10000 ≡ true = lt→ltb _ _ few in
      (
        _,
        rw (some_items, above, below, small, run),
        small-IsFresh requested layout maximum_evictions hash_seed random_seed few v,
      )
