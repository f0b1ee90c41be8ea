-- ===== src/Filter/Metadata.antt =====
-- What `Metadata` returns: a fingerprint that is no empty-slot sentinel, and two buckets of the
-- table that are each other's alternates. It depends on the layout and the hash seed alone.
use native.Mathlib.Nat.{one-le-pow, mod-lt}
use vlse.Base.{
  >>=-eq-ok, ℕ, zero, suc, ◌+◌, ◌-◌, ◌*◌, ◌/◌, ◌%◌, ◌^◌, ◌<◌, bit_and, bit_xor, ◌≡◌, ◌≢◌, refl, sym,
  ap, ◌∙◌, arith, ok, ◌==◌, Bool-cases, inl, inr, ==→ne, ne→==, Returns,
}
use vlse.Bits.{bit_and-low_bits, pow-add}
use vlse.Filter.State.Alternate.{IsLayout}
use vlse.Filter.State.{
  Setting, KeyMetadata, Filter, Layout, alternate, hash_token128, fingerprint_mask, rehash,
  metadata,
}
use vlse.Filter.Store.Fields.{IsSized}

pub record IsMetadata (f : ℕ) (layout : Layout) (m : KeyMetadata) : Type 0 where
  pub nonzero : m.fingerprint ≢ 0
  pub small : m.fingerprint < 2 ^ f
  pub first : m.first_bucket < layout.bucket_count
  pub paired : m.second_bucket ≡ alternate layout m.first_bucket m.fingerprint

high_bits : (p q : ℕ) → 0 < q → (p * q - 1) / q ≡ p - 1
high_bits zero q h = grind arith
high_bits (suc p) q h = grind arith

module _ (c : Setting) where
  open c use {fingerprint_bits, Payload}

  pub mask-eq : (n : ℕ) → IsSized fingerprint_bits n → fingerprint_mask c ≡ 2 ^ fingerprint_bits - 1
  unfolding fingerprint_mask
  mask-eq n sized =
      let width : fingerprint_bits + (64 - fingerprint_bits) ≡ 64 = omega (arith, sized.narrow) in
      let product : 2 ^ 64 ≡ 2 ^ fingerprint_bits * 2 ^ (64 - fingerprint_bits) =
        ap (λ k. 2 ^ k) (sym width) ∙ pow-add fingerprint_bits (64 - fingerprint_bits) in
      ap (λ t. (t - 1) / 2 ^ (64 - fingerprint_bits)) product
      ∙ high_bits (2 ^ fingerprint_bits) (2 ^ (64 - fingerprint_bits))
          (one-le-pow (64 - fingerprint_bits) 2 (omega arith))

  rehash-nonzero :
      (fuel state : ℕ) {fingerprint : ℕ}
      → rehash c fuel state ≡ ok fingerprint
      → (fingerprint ≢ 0) × ((other : ℕ) × (fingerprint ≡ bit_and other (fingerprint_mask c)))
  unfolding rehash
  rehash-nonzero zero state h = cc
  rehash-nonzero (suc fuel) state {fingerprint} h =
      elim (Bool-cases (bit_and state (fingerprint_mask c) == 0)) [
        | inl again ↦ rehash-nonzero fuel _ (rw again at h)
        | inr done ↦
            let e : ok (bit_and state (fingerprint_mask c)) ≡ ok fingerprint = rw done at h in
            let same : bit_and state (fingerprint_mask c) ≡ fingerprint = cc in
            (rw (← same) (==→ne _ 0 done), (state, sym same))
      ]

  -- The state of the loop after `k` rehashes.
  unfoldable pub rehashed : ℕ → ℕ → ℕ
  rehashed zero state = state
  rehashed (suc k) state = rehashed k (c.murmur_hash64 (bit_xor state 0x9e3779b97f4a7c15))

  -- The loop ends if one of its states has a fingerprint that is not zero, within the fuel.
  pub rehash-Returns :
      (fuel k state : ℕ)
      → k < fuel
      → bit_and (rehashed k state) (fingerprint_mask c) ≢ 0
      → Returns (rehash c fuel state) (λ fingerprint. fingerprint ≢ 0)
  unfolding rehash rehashed
  rehash-Returns zero k state below h = absurd (omega arith)
  rehash-Returns (suc fuel) zero state below h = (_, rw (ne→== _ 0 h), h)
  rehash-Returns (suc fuel) (suc k) state below h =
      elim (Bool-cases (bit_and state (fingerprint_mask c) == 0)) [
        | inl again ↦ rw again (rehash-Returns fuel k _ (omega arith) h)
        | inr done ↦ (_, rw done, ==→ne _ 0 done)
      ]

  -- When the metadata of a token are computed, in a table of the right size whose four masks are
  -- each below a power of two that divides the bucket count, the fingerprint is not zero and has
  -- the right width, the first bucket is inside the table, and the second is its alternate.
  pub metadata-IsMetadata :
      (s : Filter c) (token : ℕ) {m : KeyMetadata}
      → IsLayout s.layout
      → IsSized fingerprint_bits s.layout.bucket_count
      → metadata c s token ≡ ok m
      → IsMetadata fingerprint_bits s.layout m
  unfolding metadata
  metadata-IsMetadata s token {m} laid sized h =
      let element : ℕ = hash_token128 c token s.hash_seed in
      let (fingerprint, run, built) = >>=-eq-ok _ _ h in
      let (nonzero, (other, masked)) = rehash-nonzero c.rehash_fuel _ run in
      let built' : record {
        fingerprint = fingerprint;
        first_bucket = element % s.layout.bucket_count;
        second_bucket = alternate s.layout (element % s.layout.bucket_count) fingerprint;
      }
          ≡ m =
        cc in
      let small : fingerprint < 2 ^ fingerprint_bits =
        rw (masked, mask-eq s.layout.bucket_count sized, bit_and-low_bits fingerprint_bits other)
          (mod-lt other (one-le-pow fingerprint_bits 2 (omega arith))) in
      rw (← built') (record {
        nonzero = nonzero;
        small = small;
        first = mod-lt element laid.nonempty;
        paired = refl;
      })

  -- Filters with the same layout and hash seed place every token alike.
  pub metadata_congr :
      (s t : Filter c) (token : ℕ)
      → s.layout ≡ t.layout
      → s.hash_seed ≡ t.hash_seed
      → metadata c s token ≡ metadata c t token
  unfolding metadata
  metadata_congr s t token e h = rw (e, h)
