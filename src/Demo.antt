-- ===== src/Demo.antt =====
-- The program paired_vlse/demo.cpp: 256 keywords are inserted under labels, found again through the
-- OPRF, and the table is padded. The libraries are one record. The captured index of the generators
-- is the index before the padding, since `FingerprintForToken` reads only its layout and hash seed.
-- A blind is used for one keyword only, so the loop of queries does not keep its flag.
pub mod Numerals
pub mod Queries
pub mod Steps
pub mod Passes
use vlse.Aead.{AeadLabel, Cipher, Entropy, Outputs, encrypt_label, decrypt_label}
use vlse.Base.{
  ℕ, zero, suc, ◌+◌, ◌/◌, ◌%◌, Bool, true, false, not, ◌&&◌, ◌||◌, ◌==◌, ltb, if◌then◌else◌, List,
  [], ◌∷◌, ◌++◌, map, range, length, Option, none, some, Result, ok, throw, runtime_error,
  logic_error, ◌>>=◌, u64, codes,
}
use vlse.Derivation.{TokenKeyPair, derive_token_and_key, no_label}
use vlse.Filter.Fill.{Generators, fill_empty_slots}
use vlse.Filter.Insert.{insert}
use vlse.Filter.Layout.{Double, make_filter}
use vlse.Filter.Query.{query_all, fingerprint_for_token}
use vlse.Filter.State.{Setting, Filter, capacity}
use vlse.Oprf.{
  Group, PreparedBlind, group_element_bytes, random_secret_key, direct_evaluate, prepare_blind_pool,
  evaluate_prepared,
}

abbrev pub k_epoch : ℕ
k_epoch = 1

abbrev pub k_component : ℕ
k_component = 0

abbrev pub k_items : ℕ
k_items = 256

-- The digits of `std::to_string` before those written; twenty digits hold every 64-bit number.
unfoldable pub to_string_from : ℕ → ℕ → List ℕ → List ℕ
to_string_from zero value written = written
to_string_from (suc digits) value written =
    let digit = 48 + value % 10 in
    let more = to_string_from digits (value / 10) (digit ∷ written) in
    if ltb value 10 then digit ∷ written else more

unfoldable pub to_string : ℕ → List ℕ
to_string value = to_string_from 20 value []

abbrev pub keyword_prefix : List ℕ
keyword_prefix = codes "paired-demo-keyword/"

unfoldable pub make_keywords : ℕ → List (List ℕ)
make_keywords count = map (λ i. keyword_prefix ++ to_string i) (range count)

pub record Libraries : Type 1 where
  pub group : Group
  pub cipher : Cipher
  pub entropy : Entropy
  pub double : Double
  pub sha256 : List ℕ → List ℕ
  pub murmur_hash64 : ℕ → ℕ
  pub Engine : Type 0
  pub seed_engine : ℕ → Engine
  pub draw : Engine → ℕ × Engine
  pub rehash_fuel : ℕ
  pub rejections : ℕ

-- `PairedVacuumFilter<43, AeadLabel>`.
abbrev pub index_setting : Libraries → Setting
index_setting l = record {
  fingerprint_bits = 43;
  Payload = AeadLabel;
  empty_payload = no_label;
  murmur_hash64 = l.murmur_hash64;
  Engine = l.Engine;
  seed_engine = l.seed_engine;
  draw = l.draw;
  rehash_fuel = l.rehash_fuel;
}

-- What `main` prints: the dummy records of a run that passes, or the failure.
pub data Report : Type 0 where
  passed insertion_failed query_failed : ℕ → Report
  not_padded : Report

module _ (l : Libraries) where
  open l use {group, cipher, entropy, double, sha256}

  abbrev pub Index : Type 0
  Index = Filter (index_setting l)

  -- The first loop ends with the index, or at an item that was not inserted.
  pub data Loaded : Type 0 where
    loaded : Index → Loaded
    not_inserted : ℕ → Loaded

  unfoldable pub random_derivation_input : entropy.State → Result (List ℕ × entropy.State)
  random_derivation_input state = elim (entropy.rand_bytes group_element_bytes state) [
    | none ↦ throw runtime_error
    | some drawn ↦ ok drawn
  ]

  -- The body of the first loop at item `i`.
  unfoldable pub insert_keyword : ℕ → List ℕ → ℕ → Index → Result (Bool × Index)
  insert_keyword key keyword i index = do
    output ← direct_evaluate group key keyword
    let derived = derive_token_and_key sha256 output
    label ← encrypt_label cipher derived.key k_epoch derived.token k_component true (u64 (i + 1))
    insert (index_setting l) index derived.token label

  unfoldable pub insert_keywords : ℕ → List (List ℕ) → ℕ → Index → Result Loaded
  insert_keywords key [] i index = ok (loaded index)
  insert_keywords key (keyword ∷ keywords) i index = do
    inserted ← insert_keyword key keyword i index
    let rest = insert_keywords key keywords (suc i) inserted.1
    if inserted.0 then rest else ok (not_inserted i)

  -- What the lambda of the second loop makes of a decryption.
  unfoldable pub is_document : ℕ → Bool × Outputs → Bool
  is_document i decoded =
      decoded.0 && (decoded.1.valid && decoded.1.document_identifier == u64 (i + 1))

  -- `std::any_of` over the candidates.
  unfoldable pub any_opens : TokenKeyPair → ℕ → List AeadLabel → Result Bool
  any_opens derived i [] = ok false
  any_opens derived i (label ∷ candidates) = do
    decoded ←
        decrypt_label cipher derived.key k_epoch derived.token k_component label
          (record { valid = false; document_identifier = 0 })
    let rest = any_opens derived i candidates
    if is_document i decoded then ok true else rest

  -- The body of the second loop at item `i`: `found`.
  unfoldable pub query_keyword : ℕ → List ℕ → PreparedBlind → ℕ → Index → Result Bool
  query_keyword key keyword blind i index = do
    output ← (evaluate_prepared group key keyword blind).1
    let derived = derive_token_and_key sha256 output
    candidates ← query_all (index_setting l) index derived.token
    any_opens derived i candidates

  -- The second loop: the item that was not found, if one was not. There is a blind per keyword, so
  -- that the clause without one is never reached.
  unfoldable pub query_keywords :
      ℕ → List (List ℕ) → List PreparedBlind → ℕ → Index → Result (Option ℕ)
  query_keywords key [] blinds i index = ok none
  query_keywords key (keyword ∷ keywords) [] i index = throw logic_error
  query_keywords key (keyword ∷ keywords) (blind ∷ blinds) i index = do
    found ← query_keyword key keyword blind i index
    let rest = query_keywords key keywords blinds (suc i) index
    if found then rest else ok (some i)

  -- `pending_label`, drawn with the fingerprint of its token.
  unfoldable pub dummy_fingerprint :
      Index → AeadLabel × entropy.State → Result (ℕ × (AeadLabel × entropy.State))
  dummy_fingerprint index (pending_label, state) = do
    input ← random_derivation_input state
    let pending = derive_token_and_key sha256 input.0
    label ← encrypt_label cipher pending.key k_epoch pending.token k_component false 0
    fingerprint ← fingerprint_for_token (index_setting l) index pending.token
    ok (fingerprint, (label, input.1))

  abbrev pub dummies : Index → Generators AeadLabel
  dummies index = record {
    State = AeadLabel × entropy.State;
    fingerprint = dummy_fingerprint index;
    payload = λ state. ok (state.0, state);
    allowed = λ fingerprint. true;
    rejections = l.rejections;
  }

  unfoldable pub pad : Index → entropy.State → Result Report
  pad index state =
      let (padded, result) =
        fill_empty_slots (index_setting l) (dummies index) index (no_label, state) in
      do
        dummy_records ← result
        ok (
            if not padded.padded || not (padded.filled_slots == capacity (index_setting l) padded)
            then not_padded
            else passed dummy_records.0)

  -- `main` after the first loop.
  unfoldable pub query_and_pad :
      ℕ → List (List ℕ) → group.Pool → entropy.State → Loaded → Result Report
  query_and_pad key keywords pool state (not_inserted i) = ok (insertion_failed i)
  query_and_pad key keywords pool state (loaded index) = do
    blinds ← prepare_blind_pool group (length keywords) pool
    missing ← query_keywords key keywords blinds.0 0 index
    let rest = pad index state
    elim missing [ none ↦ rest | some i ↦ ok (query_failed i) ]

  unfoldable pub make_index : ℕ → Result Index
  make_index items =
      make_filter (index_setting l) double items (double.decimal 95 2) 500 0x6a09e667f3bcc909
        0xbb67ae8584caa73b

  -- `main` with a number of items in place of `kItems`.
  unfoldable pub run_items : ℕ → group.Pool → entropy.State → Result Report
  run_items items pool state =
      let keywords = make_keywords items in
      do
        secret ← random_secret_key group pool
        index ← make_index items
        inserted ← insert_keywords secret.0 keywords 0 index
        query_and_pad secret.0 keywords secret.1 state inserted

  abbrev pub run_main : group.Pool → entropy.State → Result Report
  run_main = run_items k_items
