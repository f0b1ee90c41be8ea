-- ===== src/Filter/Store/Fields.antt =====
-- The bit fields of the buckets do not overlap, and stay inside the storage.
use vlse.Base.{
  ℕ, ◌+◌, ◌*◌, ◌/◌, ◌%◌, ◌^◌, ◌≤◌, ◌<◌, ◌≡◌, arith, ◌⊎◌, inl, inr, ◌≢◌, List, ◌==◌, if◌then◌else◌,
  length, ◌∙◌, ℕ_discrete,
}
use vlse.Filter.Store.{low_width, encoded_bits_per_bucket, field_start}
use vlse.Storage.Fields.{
  HasRoom, length-write_bits, write_bits-IsBytes, read_bits-write_bits_self,
  read_bits-write_bits_disjoint,
}
use vlse.Storage.Laws.{IsBytes}
use vlse.Storage.{window_bytes, read_bits, write_bits}

pub mul_gap : (a b w : ℕ) → a < b → a * w + w ≤ b * w
mul_gap a b w h = grind arith

-- The bytes of `n` buckets, with the guard of one window.
abbrev pub logical_bytes : ℕ → ℕ → ℕ
logical_bytes fingerprint_bits n = (n * encoded_bits_per_bucket fingerprint_bits + 7) / 8

pub record IsStorage (fingerprint_bits n : ℕ) (storage : List ℕ) : Type 0 where
  pub bytes : IsBytes storage
  pub guarded : length storage ≡ logical_bytes fingerprint_bits n + window_bytes

-- The static assertions on `FingerprintBits`, and a table whose bit positions fit 64 bits.
pub record IsSized (fingerprint_bits n : ℕ) : Type 0 where
  pub wide : 5 ≤ fingerprint_bits
  pub narrow : fingerprint_bits ≤ 64
  pub addressable : n * encoded_bits_per_bucket fingerprint_bits < 2 ^ 64

abbrev pub field_width : ℕ → ℕ → ℕ
field_width fingerprint_bits k = if k == 4 then 12 else low_width fingerprint_bits

-- A bucket of `e = 4 * w + 12` bits, with the field `k` in it.
field_inside : (e w k : ℕ) → e ≡ 4 * w + 12 → k ≤ 4 → k * w + (if k == 4 then 12 else w) ≤ e
field_inside e w k h few = elim (ℕ_discrete k 4) [
  | yes is4 ↦ rw is4 (omega arith)
  | no ne ↦ ground (arith, mul_gap k 4 w (omega arith))
]

field_start_fits :
    (e w p k n : ℕ)
    → e ≡ 4 * w + 12
    → p < n
    → k ≤ 4
    → n * e < 2 ^ 64
    → (p * e % 2 ^ 64 + k * w) % 2 ^ 64 ≡ p * e + k * w
field_start_fits e w p k n h below few small =
    let inside : k * w ≤ e = ground (arith, field_inside e w k h few) in
    omega (arith, mul_gap p n e below)

fields_apart :
    (e w p k q m : ℕ)
    → e ≡ 4 * w + 12
    → k ≤ 4
    → m ≤ 4
    → (p < q) ⊎ (p ≡ q) × (k < m)
    → p * e + k * w + (if k == 4 then 12 else w) ≤ q * e + m * w
fields_apart e w p k q m h few few' (inl lt) =
    omega (arith, mul_gap p q e lt, field_inside e w k h few)
fields_apart e w p k q m h few few' (inr (same, lt)) = rw same (ground (arith, mul_gap k m w lt))

order :
    (p k q m : ℕ)
    → (p ≢ q) ⊎ (k ≢ m)
    → ((p < q) ⊎ (p ≡ q) × (k < m)) ⊎ ((q < p) ⊎ (q ≡ p) × (m < k))
order p k q m h = grind arith

module _ (f n : ℕ) (sized : IsSized f n) where
  bucket_bits : encoded_bits_per_bucket f ≡ 4 * low_width f + 12
  bucket_bits = omega (arith, sized.wide)

  field_start-eq :
      (p k : ℕ)
      → p < n
      → k ≤ 4
      → field_start f p k ≡ p * encoded_bits_per_bucket f + k * low_width f
  unfolding field_start
  field_start-eq p k below few =
      field_start_fits (encoded_bits_per_bucket f) (low_width f) p k n bucket_bits below few
        sized.addressable

  pub field_width-le : (k : ℕ) → field_width f k ≤ 64
  field_width-le k = ground (arith, sized.narrow)

  field_room :
      (storage : List ℕ) (p k : ℕ)
      → IsStorage f n storage
      → p < n
      → k ≤ 4
      → HasRoom storage (field_start f p k)
  field_room storage p k v below few =
      let e : ℕ = encoded_bits_per_bucket f in
      let w : ℕ = low_width f in rw (field_start-eq p k below few) (room e w bucket_bits v.guarded)
    where
      room :
          (e w : ℕ)
          → e ≡ 4 * w + 12
          → length storage ≡ (n * e + 7) / 8 + window_bytes
          → (p * e + k * w) / 8 + window_bytes ≤ length storage
      room e w h len =
          let inside : k * w + 1 ≤ e = ground (arith, mul_gap k 4 w) in
          omega (arith, mul_gap p n e below)

  -- A write of one field keeps the storage's shape.
  pub write_field-IsStorage :
      (storage : List ℕ) (p k value : ℕ)
      → IsStorage f n storage
      → p < n
      → k ≤ 4
      → IsStorage f n (write_bits storage (field_start f p k) (field_width f k) value)
  write_field-IsStorage storage p k value v below few =
      let room = field_room storage p k v below few in
      record {
        bytes = write_bits-IsBytes storage v.bytes _ _ value (field_width-le k) room;
        guarded = length-write_bits storage v.bytes _ _ value (field_width-le k) room ∙ v.guarded;
      }

  pub read_field-write_field_self :
      (storage : List ℕ) (p k value : ℕ)
      → IsStorage f n storage
      → p < n
      → k ≤ 4
      → read_bits
          (write_bits storage (field_start f p k) (field_width f k) value)
          (field_start f p k)
          (field_width f k)
        ≡ value % 2 ^ field_width f k
  read_field-write_field_self storage p k value v below few =
      read_bits-write_bits_self storage v.bytes _ _ value (field_width-le k)
        (field_room storage p k v below few)

  fields_disjoint :
      (p k q m : ℕ)
      → p < n
      → q < n
      → k ≤ 4
      → m ≤ 4
      → (p ≢ q) ⊎ (k ≢ m)
      → (field_start f p k + field_width f k ≤ field_start f q m)
        ⊎ (field_start f q m + field_width f m ≤ field_start f p k)
  fields_disjoint p k q m below below' few few' apart =
      rw (field_start-eq p k below few, field_start-eq q m below' few')
        (elim (order p k q m apart) [
          | inl lt ↦ inl (
              fields_apart (encoded_bits_per_bucket f) (low_width f) p k q m bucket_bits few few'
                lt)
          | inr gt ↦ inr (
              fields_apart (encoded_bits_per_bucket f) (low_width f) q m p k bucket_bits few' few
                gt)
        ])

  pub read_field-write_field_ne :
      (storage : List ℕ) (p k q m value : ℕ)
      → IsStorage f n storage
      → p < n
      → q < n
      → k ≤ 4
      → m ≤ 4
      → (p ≢ q) ⊎ (k ≢ m)
      → read_bits
          (write_bits storage (field_start f p k) (field_width f k) value)
          (field_start f q m)
          (field_width f m)
        ≡ read_bits storage (field_start f q m) (field_width f m)
  read_field-write_field_ne storage p k q m value v below below' few few' apart =
      read_bits-write_bits_disjoint storage v.bytes _ _ value (field_width-le k)
        (field_room storage p k v below few) _ _ (field_width-le m)
        (fields_disjoint p k q m below below' few few' apart)
