-- ===== src/Demo/Steps.antt =====
-- The phases of `main` in paired_vlse/demo.cpp end normally, if the libraries let their loops end.
use vlse.Aead.{AeadLabel, encrypt_label, sealed_label}
use vlse.Base.{
  ℕ, zero, suc, ◌+◌, ◌*◌, ◌^◌, ◌<◌, ◌≤◌, ◌≡◌, refl, sym, ap, ◌∙◌, arith, Bool, true, false, ◌==◌,
  Bool-cases, inl, inr, List, [], ◌∷◌, ◌++◌, map, range_from, length, Option, none, some, ok, throw,
  runtime_error, ◌≢◌, Returns, subst, ne→==, eq→==, bit_and, u64,
}
use vlse.Bits.{bit_and-low_bits}
use vlse.Demo.Queries.{IsSound, then_ok, insert_keyword-IsLoaded}
use vlse.Demo.{
  Libraries, Index, Loaded, loaded, not_inserted, passed, index_setting, k_epoch, k_component,
  random_derivation_input, insert_keyword, insert_keywords, pad, dummy_fingerprint, dummies,
  make_keywords, keyword_prefix, to_string,
}
use vlse.Derivation.{TokenKeyPair, derive_token_and_key, no_label}
use vlse.Filter.Fill.Willing.{IsWilling, fill_empty_slots-Returns}
use vlse.Filter.Fill.{fill_empty_slots, draw_fingerprint}
use vlse.Filter.Insert.Laws.{insert-IsFilter}
use vlse.Filter.Invariant.{IsFilter}
use vlse.Filter.Metadata.{metadata-IsMetadata, mask-eq, rehashed, rehash-Returns}
use vlse.Oprf.Draws.{IsScalarAt, random_scalar-Returns, direct_evaluate-Returns}
use vlse.Filter.Query.{fingerprint_for_token}
use vlse.Filter.State.{Layout, capacity, metadata, fingerprint_mask}
use vlse.Oprf.{
  group_element_bytes, direct_evaluate, random_scalar, prepare_blind, prepare_blind_pool, cofactor,
  hash_candidate,
}

-- A counter within the fuel gives a candidate for the input whose power by the cofactor is not 1.
abbrev pub IsHashable : Libraries → List ℕ → Type 0
IsHashable l input =
    (k : ℕ) × (k < l.group.rejections)
    × (k < 2 ^ 32)
    × (l.group.power_mod (hash_candidate l.group k input) (cofactor l.group) l.group.modulus ≢ 1)

unfoldable AllHashable : Libraries → List (List ℕ) → Type 0
AllHashable l [] = Unit {0}
AllHashable l (keyword ∷ keywords) = IsHashable l keyword × AllHashable l keywords

map_range-AllHashable :
    (l : Libraries) (f : ℕ → List ℕ) (first n : ℕ)
    → ((i : ℕ) → i < first + n → IsHashable l (f i))
    → AllHashable l (map f (range_from first n))
unfolding AllHashable
map_range-AllHashable l f first zero h = tt
map_range-AllHashable l f first (suc n) h =
    (h first (omega arith), map_range-AllHashable l f (suc first) n (λ i below. h i (omega arith)))

-- What the program needs of the libraries to end: keywords that can be hashed and blocks of the pool
-- that are scalars, within the fuel, a cipher that seals, bytes
-- whenever they are drawn, a hash that is not zero for ever, and doubles that put 0.95 between 0 and 1.
pub record IsLive (l : Libraries) (items : ℕ) : Type 0 where
  pub fits : l.group.modulus ≤ 256 ^ group_element_bytes
  pub elements : (i : ℕ) → i < items → IsHashable l (keyword_prefix ++ to_string i)
  pub scalars :
      (pool : l.group.Pool) → (k : ℕ) × (k < l.group.rejections) × IsScalarAt l.group k pool
  pub seals :
      (key nonce aad text : List ℕ)
      → (sealed : List ℕ × List ℕ) × (l.cipher.seal key nonce aad text ≡ some sealed)
  pub gives_bytes :
      (size : ℕ) (state : l.entropy.State)
      → (drawn : List ℕ × l.entropy.State) × (l.entropy.rand_bytes size state ≡ some drawn)
  pub hashes :
      (state : ℕ)
      → (k : ℕ) × (k < l.rehash_fuel)
        × (bit_and (rehashed (index_setting l) k state) (fingerprint_mask (index_setting l)) ≢ 0)
  pub draws_dummies : 0 < l.rejections
  pub above : l.double.less (l.double.of_size 0) (l.double.decimal 95 2) ≡ true
  pub below : l.double.less (l.double.decimal 95 2) (l.double.of_size 1) ≡ true

module _ (l : Libraries) (sound : IsSound l) (items : ℕ) (live : IsLive l items) where
  open l use {group, cipher, sha256, entropy}

  direct_evaluate_returns :
      (key : ℕ) (input : List ℕ)
      → IsHashable l input
      → Returns (direct_evaluate group key input) (λ _. Unit {0})
  direct_evaluate_returns key input (k, below, room, accepted) =
      direct_evaluate-Returns group sound.powers live.fits key k input below room accepted

  pub random_scalar_returns :
      (pool : group.Pool) → Returns (random_scalar group group.rejections pool) (λ _. Unit {0})
  random_scalar_returns pool =
      let (k, below, at) = live.scalars pool in
      random_scalar-Returns group group.rejections k pool below at

  metadata_returns :
      (index : Index l) (token : ℕ)
      → Returns (metadata (index_setting l) index token) (λ _. Unit {0})
  unfolding metadata
  metadata_returns index token =
      let (k, below, nonzero) = live.hashes _ in
      let (fingerprint, run, t) =
        rehash-Returns (index_setting l) l.rehash_fuel k _ below nonzero in
      then_ok _ _ (fingerprint, run, tt)

  encrypt_label-Returns :
      (key : List ℕ) (epoch token component_index : ℕ) (valid : Bool) (document : ℕ)
      → Returns
          (encrypt_label cipher key epoch token component_index valid document)
          (λ _. Unit {0})
  unfolding encrypt_label sealed_label
  encrypt_label-Returns key epoch token component_index valid document =
      given _ _ (live.seals key _ _ _)
    where
      given :
          (nonce : List ℕ) (o : Option (List ℕ × List ℕ))
          → (sealed : List ℕ × List ℕ) × (o ≡ some sealed)
          → Returns (sealed_label nonce o) (λ _. Unit {0})
      given nonce o (sealed, run) = rw run (_, refl, tt)

  insert_keyword-Returns :
      (key : ℕ) (keyword : List ℕ) (i : ℕ) (index : Index l)
      → IsHashable l keyword
      → IsFilter (index_setting l) index
      → index.padded ≡ false
      → Returns (insert_keyword l key keyword i index) (λ _. Unit {0})
  unfolding insert_keyword
  insert_keyword-Returns key keyword i index hashable v unpadded =
      let (output, evaluated, t) = direct_evaluate_returns key keyword hashable in
      let derived : TokenKeyPair = derive_token_and_key sha256 output in
      let (label, sealed, u) =
        encrypt_label-Returns derived.key k_epoch derived.token k_component true (u64 (i + 1)) in
      let (m, known, w) = metadata_returns index derived.token in
      let (inserted, run, valid) =
        insert-IsFilter (index_setting l) index derived.token label m v unpadded known in
      (inserted, rw (evaluated, sealed) run, tt)

  -- How the first loop ends.
  unfoldable pub IsDone : ℕ → Loaded l → Type 0
  IsDone end (loaded index) = Unit {0}
  IsDone end (not_inserted i) = i < end

  insert_all-Returns :
      (key : ℕ) (keywords : List (List ℕ)) (i : ℕ) (index : Index l)
      → AllHashable l keywords
      → IsFilter (index_setting l) index
      → index.padded ≡ false
      → Returns (insert_keywords l key keywords i index) (IsDone (i + length keywords))
  unfolding insert_keywords IsDone AllHashable
  insert_all-Returns key [] i index all v unpadded = (loaded index, refl, tt)
  insert_all-Returns key (keyword ∷ keywords) i index (hashable, all) v unpadded =
      let (inserted, run, t) = insert_keyword-Returns key keyword i index hashable v unpadded in
      elim (Bool-cases inserted.0) [
        | inr failed ↦ (not_inserted i, rw (run, failed) refl, omega arith)
        | inl done ↦
            let step : insert_keyword l key keyword i index ≡ ok (true, inserted.1) =
              run ∙ ap (λ b. ok (b, inserted.1)) done in
            let (kept, counted, first) =
              insert_keyword-IsLoaded l sound key keyword i index inserted.1 v unpadded step in
            let (end, later, so) =
              insert_all-Returns key keywords (suc i) inserted.1 all kept.valid kept.unpadded in
            let sum : suc i + length keywords ≡ i + length (keyword ∷ keywords) = omega arith in
            (end, rw (run, done) later, subst (λ k. IsDone k end) sum so)
      ]

  pub insert_keywords-Returns :
      (key : ℕ) (index : Index l)
      → IsFilter (index_setting l) index
      → index.padded ≡ false
      → Returns
          (insert_keywords l key (make_keywords items) 0 index)
          (IsDone (0 + length (make_keywords items)))
  unfolding make_keywords
  insert_keywords-Returns key index v unpadded =
      insert_all-Returns key _ 0 index
        (map_range-AllHashable l _ 0 items (λ i below. live.elements i (omega arith))) v unpadded

  pub prepare_blind_pool-Returns :
      (count : ℕ) (pool : group.Pool)
      → Returns (prepare_blind_pool group count pool) (λ _. Unit {0})
  unfolding prepare_blind_pool prepare_blind
  prepare_blind_pool-Returns zero pool = (([], pool), refl, tt)
  prepare_blind_pool-Returns (suc count) pool =
      let (drawn, run, t) = random_scalar_returns pool in
      let (rest, later, u) = prepare_blind_pool-Returns count drawn.1 in
      (
        (
          record {
            scalar = drawn.0;
            inverse = group.inv_mod drawn.0 group.subgroup_order;
            consumed = false;
          }
              ∷ rest.0,
          rest.1,
        ),
        rw (run, later) refl,
        tt,
      )

  random_derivation_input-Returns :
      (state : entropy.State) → Returns (random_derivation_input l state) (λ _. Unit {0})
  unfolding random_derivation_input
  random_derivation_input-Returns state =
      let (drawn, run) = live.gives_bytes group_element_bytes state in
      subst
        (λ o.
          Returns (elim o [ none ↦ throw runtime_error | some drawn ↦ ok drawn ])
            (λ (_ : List ℕ × entropy.State). Unit {0}))
        (sym run) (drawn, refl, tt)

  dummy_fingerprint-Returns :
      (index : Index l) (label : AeadLabel) (state : entropy.State)
      → IsFilter (index_setting l) index
      → Returns
          (dummy_fingerprint l index (label, state))
          (λ drawn. (drawn.0 ≢ 0) × (drawn.0 < 2 ^ 43))
  unfolding dummy_fingerprint fingerprint_for_token
  dummy_fingerprint-Returns index label state v =
      let (input, read, t) = random_derivation_input-Returns state in
      let pending : TokenKeyPair = derive_token_and_key sha256 input.0 in
      let (pending_label, sealed, u) =
        encrypt_label-Returns pending.key k_epoch pending.token k_component false 0 in
      let (m, known, w) = metadata_returns index pending.token in
      let placed = metadata-IsMetadata (index_setting l) index pending.token v.laid v.sized known in
      (
        (m.fingerprint, (pending_label, input.1)),
        rw (read, sealed, known) refl,
        (placed.nonzero, placed.small),
      )

  dummies-IsWilling :
      (index : Index l)
      → IsFilter (index_setting l) index
      → IsWilling (index_setting l) (dummies l index)
  unfolding draw_fingerprint
  dummies-IsWilling index v = record {
    draws = λ s. draws l.rejections live.draws_dummies s.0 s.1;
    pays = λ s. ((s.0, s), refl, tt);
  }
    where
      accepted :
          (fingerprint : ℕ)
          → fingerprint ≢ 0
          → fingerprint < 2 ^ 43
          → bit_and fingerprint (fingerprint_mask (index_setting l)) == 0 ≡ false
      accepted fingerprint nonzero small =
          rw
            (
              mask-eq (index_setting l) index.layout.bucket_count v.sized,
              bit_and-low_bits 43 fingerprint,
            )
            (ne→== _ 0 (omega (arith, nonzero, small)))

      draws :
          (fuel : ℕ)
          → 0 < fuel
          → (label : AeadLabel) (state : entropy.State)
          → Returns
              (draw_fingerprint (index_setting l) (dummies l index) fuel (label, state))
              (λ _. Unit {0})
      draws zero pos label state = absurd (omega arith)
      draws (suc fuel) pos label state =
          let (drawn, run, (nonzero, small)) = dummy_fingerprint-Returns index label state v in
          (
            (bit_and drawn.0 (fingerprint_mask (index_setting l)), drawn.1),
            rw (run, accepted drawn.0 nonzero small) refl,
            tt,
          )

  capacity_congr :
      (s t : Index l)
      → s.layout ≡ t.layout
      → capacity (index_setting l) s ≡ capacity (index_setting l) t
  unfolding capacity
  capacity_congr s t e = ap (λ (layout : Layout). u64 (layout.bucket_count * 4)) e

  pub pad-passes :
      (index : Index l) (state : entropy.State)
      → IsFilter (index_setting l) index
      → index.padded ≡ false
      → (dummy_records : ℕ) × (pad l index state ≡ ok (passed dummy_records))
        × (index.filled_slots + dummy_records ≡ capacity (index_setting l) index)
  unfolding pad
  pad-passes index state v unpadded =
      let (done, run, w) =
        fill_empty_slots-Returns (index_setting l) (dummies l index) (dummies-IsWilling index v)
          index (no_label, state) v unpadded in
      let s' : Index l =
        (fill_empty_slots (index_setting l) (dummies l index) index (no_label, state)).0 in
      let whole : s'.filled_slots == capacity (index_setting l) s' ≡ true =
        eq→== _ _ (w.full ∙ sym (capacity_congr s' index w.same_layout)) in
      (done.0, rw (run, w.padded, whole) refl, w.counted)
