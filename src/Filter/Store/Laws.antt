-- ===== src/Filter/Store/Laws.antt =====
-- `ReadBucket` after `WriteBucket`: the written bucket comes back sorted, with its payloads in step,
-- and every other bucket is unchanged.

use vlse.Base.{
  ℕ, ◌+◌, ◌*◌, ◌/◌, ◌%◌, ◌^◌, ◌≤◌, ◌<◌, ◌≡◌, refl, sym, ap, subst, ◌∙◌, ◌⊎◌, ◌≢◌, inl, arith, List,
  [], ◌∷◌, get_or, length, bit_and, bit_or, u16, u64, ◌<<<◌, ◌>>>◌, for_each,
}
use vlse.Bits.{bit_and-low_bits}
use vlse.Storage.Fields.{read_bits-lt}
use vlse.Storage.{read_bits}
use vlse.Codec.{codec, plain}
use vlse.Codec.Laws.{IsDescending, decode-encode, encode-lt}
use vlse.Filter.Bucket.{Record, Bucket, stable_sort, slots_per_bucket}
use vlse.Filter.Bucket.Laws.{
  AllBelow, IsSorted, AllBelow-stable_sort, IsSorted-stable_sort, length-stable_sort,
}
use vlse.Filter.Store.{Store, low_width, field_start, read_bucket, write_bucket}
use vlse.Filter.Store.Fields.{IsStorage, IsSized, field_width}
use vlse.Filter.Store.Writes.{
  Among, write_fields, field, write_fields-IsStorage, field-write_fields_ne, field-write_fields,
}
use vlse.Filter.Store.Payloads.{
  four_payloads, length-four_payloads, get_or-four_payloads_self, get_or-four_payloads_ne,
}
use vlse.Filter.Store.Nibbles.{
  fingerprint_read-lt, high_plain-eq, plain_nibbles, high_nibble-lt, high_nibble-eq, div_mono,
  slot_fingerprint,
}
use vlse.Storage.{read_bits, low_mask}
use vlse.Storage.Laws.{low_mask-eq}

-- The vectors have the sizes that `InitializeLayout` gives them.
pub record IsStore {Payload : Type 0} (f n : ℕ) (store : Store Payload) : Type 0 where
  pub storage : IsStorage f n store.fingerprint_storage
  pub filled : length store.payloads ≡ n * slots_per_bucket

-- The values that `WriteBucket` gives the five fields, for a sorted bucket's fingerprints.
field_values : ℕ → (a b c d : ℕ) → ℕ → ℕ
field_values w a b c d k =
    get_or
      (d % 2 ^ w
        ∷ c % 2 ^ w
        ∷ b % 2 ^ w
        ∷ a % 2 ^ w
        ∷ codec.encode (plain (a / 2 ^ w) (b / 2 ^ w) (c / 2 ^ w) (d / 2 ^ w))
        ∷ [])
      k 0

every_field : (k : ℕ) → k ≤ 4 → Among k (3 ∷ 2 ∷ 1 ∷ 0 ∷ 4 ∷ [])
every_field k h = grind arith

-- The slots of two different buckets are different.
slots_apart : (p q i : ℕ) → p ≢ q → i < 4 → (q * 4 + i < p * 4) ⊎ (p * 4 + 3 < q * 4 + i)
slots_apart p q i ne h = grind arith

four : {A : Type 0} (b : List A) → length b ≡ 4 → (r s t u : A) × (b ≡ r ∷ s ∷ t ∷ u ∷ [])
four (r ∷ s ∷ t ∷ u ∷ []) h = (r, s, t, u, refl)
four [] h = absurd (omega arith)
four (r ∷ []) h = absurd (omega arith)
four (r ∷ s ∷ []) h = absurd (omega arith)
four (r ∷ s ∷ t ∷ []) h = absurd (omega arith)
four (r ∷ s ∷ t ∷ u ∷ v ∷ b) h = absurd (omega arith)

pub length-read_bucket :
    (f : ℕ) {Payload : Type 0} (empty : Payload) (store : Store Payload) (q : ℕ)
    → length (read_bucket f empty store q) ≡ slots_per_bucket
unfolding read_bucket
length-read_bucket f empty store q = refl

nibble-lt : (x : ℕ) → bit_and x 15 < 16
nibble-lt x = rw (bit_and-low_bits 4 x) (omega arith)

module _ (f n : ℕ) (sized : IsSized f n) {Payload : Type 0} (empty : Payload) where
  width-split : low_width f + 4 ≡ f
  width-split = omega (arith, sized.wide)

  low-masked : (x : ℕ) → bit_and x (low_mask (low_width f)) ≡ x % 2 ^ low_width f
  low-masked x =
      rw (low_mask-eq (low_width f) (omega (arith, sized.narrow)))
        (bit_and-low_bits (low_width f) x)

  -- `WriteBucket` on a bucket whose sorted form is `r₀, r₁, r₂, r₃`.
  write_bucket-eq :
      (store : Store Payload) (p : ℕ) (b : Bucket Payload) (r s t u : Record Payload)
      → stable_sort b ≡ r ∷ s ∷ t ∷ u ∷ []
      → AllBelow (2 ^ f) (r ∷ s ∷ t ∷ u ∷ [])
      → write_bucket f empty store p b ≡ record {
        fingerprint_storage =
            write_fields f p
              (field_values (low_width f) r.fingerprint s.fingerprint t.fingerprint u.fingerprint)
              (3 ∷ 2 ∷ 1 ∷ 0 ∷ 4 ∷ [])
              store.fingerprint_storage;
        payloads =
            four_payloads store.payloads
              (p * slots_per_bucket)
              r.payload
              s.payload
              t.payload
              u.payload;
      }
  unfolding write_bucket write_fields field_values for_each
  write_bucket-eq store p b r s t u e a =
      let w : ℕ = low_width f in
      let power : 2 ^ f ≡ 2 ^ (w + 4) = ap (λ k. 2 ^ k) (sym width-split) in
      let hr : r.fingerprint < 2 ^ (w + 4) = omega (arith, power, a.0) in
      let hs : s.fingerprint < 2 ^ (w + 4) = omega (arith, power, a.1.0) in
      let ht : t.fingerprint < 2 ^ (w + 4) = omega (arith, power, a.1.1.0) in
      let hu : u.fingerprint < 2 ^ (w + 4) = omega (arith, power, a.1.1.1.0) in
      rw e (
        rw
          (
            low-masked r.fingerprint,
            low-masked s.fingerprint,
            low-masked t.fingerprint,
            low-masked u.fingerprint,
            high_nibble-eq w r.fingerprint hr,
            high_nibble-eq w s.fingerprint hs,
            high_nibble-eq w t.fingerprint ht,
            high_nibble-eq w u.fingerprint hu,
            high_plain-eq _ _ _ _ (high_nibble-lt w r.fingerprint hr)
                (high_nibble-lt w s.fingerprint hs) (high_nibble-lt w t.fingerprint ht)
                (high_nibble-lt w u.fingerprint hu),
          )
          refl)

  -- A bucket whose fields hold a sorted quadruple reads as it.
  read_bucket-eq :
      (store : Store Payload) (q : ℕ) (r s t u : Record Payload)
      → AllBelow (2 ^ f) (r ∷ s ∷ t ∷ u ∷ [])
      → IsSorted (r ∷ s ∷ t ∷ u ∷ [])
      → ((k : ℕ)
          → k ≤ 4
          → field f store.fingerprint_storage q k
            ≡ field_values (low_width f) r.fingerprint s.fingerprint t.fingerprint u.fingerprint k
              % 2 ^ field_width f k)
      → (get_or store.payloads (q * slots_per_bucket + 0) empty ≡ r.payload)
        × (get_or store.payloads (q * slots_per_bucket + 1) empty ≡ s.payload)
        × (get_or store.payloads (q * slots_per_bucket + 2) empty ≡ t.payload)
        × (get_or store.payloads (q * slots_per_bucket + 3) empty ≡ u.payload)
      → read_bucket f empty store q ≡ r ∷ s ∷ t ∷ u ∷ []
  unfolding read_bucket field_values
  read_bucket-eq store q r s t u a d fields pays =
      let w : ℕ = low_width f in
      let small : w ≤ 60 = omega (arith, sized.narrow) in
      let power : 2 ^ f ≡ 2 ^ (w + 4) = ap (λ k. 2 ^ k) (sym width-split) in
      let hr : r.fingerprint < 2 ^ (w + 4) = omega (arith, power, a.0) in
      let hs : s.fingerprint < 2 ^ (w + 4) = omega (arith, power, a.1.0) in
      let ht : t.fingerprint < 2 ^ (w + 4) = omega (arith, power, a.1.1.0) in
      let hu : u.fingerprint < 2 ^ (w + 4) = omega (arith, power, a.1.1.1.0) in
      let nr = high_nibble-lt w r.fingerprint hr in
      let ns = high_nibble-lt w s.fingerprint hs in
      let nt = high_nibble-lt w t.fingerprint ht in
      let nu = high_nibble-lt w u.fingerprint hu in
      let p : ℕ =
        plain (r.fingerprint / 2 ^ w) (s.fingerprint / 2 ^ w) (t.fingerprint / 2 ^ w)
          (u.fingerprint / 2 ^ w) in
      let descending : IsDescending (r.fingerprint / 2 ^ w) (s.fingerprint / 2 ^ w)
          (t.fingerprint / 2 ^ w) (u.fingerprint / 2 ^ w) =
        record {
          nibble = nr;
          second = div_mono w _ _ (omega (arith, d.0.0));
          third = div_mono w _ _ (omega (arith, d.1.0.0));
          last = div_mono w _ _ (omega (arith, d.1.1.0.0));
        } in
      let code : u16 (read_bits store.fingerprint_storage (field_start f q 4) 12) ≡ codec.encode p =
        omega (arith, fields 4 (omega arith), encode-lt _ _ _ _ descending) in
      let decoded : codec.decode (codec.encode p) ≡ p = decode-encode _ _ _ _ descending in
      let (dr, ds, dt, du) = plain_nibbles _ _ _ _ nr ns nt nu in
      rw (code, decoded)
        (λ i.
          record {
            fingerprint =
                slot_fingerprint w r.fingerprint _ _ small hr (fields 3 (omega arith)) dr i;
            payload = pays.0 i;
          }
          ∷ record {
            fingerprint =
                slot_fingerprint w s.fingerprint _ _ small hs (fields 2 (omega arith)) ds i;
            payload = pays.1 i;
          }
          ∷ record {
            fingerprint =
                slot_fingerprint w t.fingerprint _ _ small ht (fields 1 (omega arith)) dt i;
            payload = pays.2 i;
          }
          ∷ record {
            fingerprint =
                slot_fingerprint w u.fingerprint _ _ small hu (fields 0 (omega arith)) du i;
            payload = pays.3 i;
          }
          ∷ [])

  module _ (store : Store Payload) (valid : IsStore f n store) (p : ℕ) (below : p < n) where
    slot_room : p * slots_per_bucket + 3 < length store.payloads
    slot_room = omega (arith, valid.filled)

    module _ (b : Bucket Payload) (full : length b ≡ slots_per_bucket)
        (small : AllBelow (2 ^ f) b) where
      -- The sorted bucket, as four records.
      IsSorted-four :
          (r s t u : Record Payload) × (stable_sort b ≡ r ∷ s ∷ t ∷ u ∷ [])
          × AllBelow (2 ^ f) (r ∷ s ∷ t ∷ u ∷ [])
          × IsSorted (r ∷ s ∷ t ∷ u ∷ [])
      IsSorted-four =
          let (r, s, t, u, e) = four (stable_sort b) (length-stable_sort b ∙ full) in
          (
            r,
            s,
            t,
            u,
            e,
            subst (AllBelow (2 ^ f)) e (AllBelow-stable_sort (2 ^ f) b small),
            subst IsSorted e (IsSorted-stable_sort b),
          )

      -- `WriteBucket` keeps the vectors' sizes, and every byte a byte.
      pub write_bucket-IsStore : IsStore f n (write_bucket f empty store p b)
      write_bucket-IsStore =
          let (r, s, t, u, e, a, d) = IsSorted-four in
          rw (write_bucket-eq store p b r s t u e a) (record {
            storage = write_fields-IsStorage f n sized p below _ _ _ (omega arith) valid.storage;
            filled =
                length-four_payloads store.payloads (p * slots_per_bucket) r.payload s.payload
                  t.payload u.payload
                ∙ valid.filled;
          })

      -- In a well-formed store of a table of the right size, a bucket of four records with
      -- fingerprints of the right width, written at an index inside the table, reads back as its
      -- stable sort by descending fingerprints, each payload beside its fingerprint.
      pub read_bucket-write_bucket_self :
          read_bucket f empty (write_bucket f empty store p b) p ≡ stable_sort b
      read_bucket-write_bucket_self =
          let (r, s, t, u, e, a, d) = IsSorted-four in
          rw (write_bucket-eq store p b r s t u e a, e)
            (read_bucket-eq _ p r s t u a d
              (λ k few.
                field-write_fields f n sized p below _ _ _ k (omega arith) valid.storage few
                  (inl (every_field k few)))
              (get_or-four_payloads_self store.payloads (p * slots_per_bucket) r.payload s.payload
                t.payload u.payload empty slot_room))

      -- In a well-formed store of a table of the right size, writing a bucket of four records with
      -- fingerprints of the right width inside the table changes no other bucket of the table.
      pub read_bucket-write_bucket_ne :
          (q : ℕ)
          → q < n
          → p ≢ q
          → read_bucket f empty (write_bucket f empty store p b) q ≡ read_bucket f empty store q
      unfolding read_bucket
      read_bucket-write_bucket_ne q below' ne =
          let (r, s, t, u, e, a, d) = IsSorted-four in
          let v =
            field_values (low_width f) r.fingerprint s.fingerprint t.fingerprint u.fingerprint in
          let kept = λ (k : ℕ) (few : k ≤ 4).
            field-write_fields_ne f n sized p below v (3 ∷ 2 ∷ 1 ∷ 0 ∷ 4 ∷ [])
              store.fingerprint_storage q k (omega arith) valid.storage below' few ne in
          let paid = λ (i : ℕ) (few : i < 4).
            get_or-four_payloads_ne store.payloads (p * slots_per_bucket) r.payload s.payload
              t.payload u.payload empty (q * slots_per_bucket + i) slot_room
              (slots_apart p q i ne few) in
          rw (
            write_bucket-eq store p b r s t u e a,
            kept 4 (omega arith),
            kept 3 (omega arith),
            kept 2 (omega arith),
            kept 1 (omega arith),
            kept 0 (omega arith),
            paid 0 (omega arith),
            paid 1 (omega arith),
            paid 2 (omega arith),
            paid 3 (omega arith),
          )

  -- Fingerprints that are read fit their width.
  pub AllBelow-read_bucket :
      (store : Store Payload)
      → IsStore f n store
      → (q : ℕ) → AllBelow (2 ^ f) (read_bucket f empty store q)
  unfolding read_bucket
  AllBelow-read_bucket store valid q =
      let w : ℕ = low_width f in
      let small : w ≤ 60 = omega (arith, sized.narrow) in
      let power : 2 ^ (w + 4) ≡ 2 ^ f = ap (λ k. 2 ^ k) width-split in
      let code : ℕ =
        codec.decode (u16 (read_bits store.fingerprint_storage (field_start f q 4) 12)) in
      let fits = λ (k : ℕ).
        subst
          (λ m.
            bit_or (read_bits store.fingerprint_storage (field_start f q k) w)
              (u64 (bit_and (code >>> (k * 4)) 15 <<< w))
            < m)
          power
          (fingerprint_read-lt w (read_bits store.fingerprint_storage (field_start f q k) w)
            (bit_and (code >>> (k * 4)) 15) small
            (read_bits-lt store.fingerprint_storage valid.storage.bytes (field_start f q k) w
              (omega arith))
            (nibble-lt (code >>> (k * 4)))) in
      (fits 3, (fits 2, (fits 1, (fits 0, tt))))
