-- ===== src/Lse.antt =====
-- The protocol run of benchmarks/lse_protocol_benchmark.cpp: documents encrypted under one OPRF key,
-- tokens of another in a cuckoo table, padding, and the search. AES of Crypto++ is a pair of
-- functions, `std::map` an association list whose `emplace` keeps an entry that is there. Clocks and
-- the timings are left out. `rejections` of the group bounds the draws of an unused token.
pub mod Lookups
pub mod Setup
pub mod Searches
use vlse.Base.{
  ℕ, zero, suc, ◌+◌, ◌*◌, Bool, true, false, if◌then◌else◌, ◌&&◌, ◌==◌, List, [], ◌∷◌, ◌++◌, length,
  get_or, map, range, take, Option, none, some, Result, ok, throw, runtime_error, logic_error,
  out_of_fuel, ◌>>=◌, u64, codes,
}
use vlse.Cuckoo.{
  Relocations, Hashing, CuckooTable, make_table, insert_token, find_token, fill_empty, same_token,
  encode_document, decode_document,
}
use vlse.Demo.{to_string}
use vlse.Derivation.{lse_aes_key}
use vlse.Oprf.{
  Group, PreparedBlind, group_element_bytes, communication_bytes_per_evaluation, random_secret_key,
  direct_evaluate, prepare_blind_pool, evaluate_prepared,
}

pub record Baseline : Type 1 where
  pub group : Group
  pub hashing : Hashing
  pub aes_encrypt : List ℕ → List ℕ → List ℕ
  pub aes_decrypt : List ℕ → List ℕ → List ℕ

pub record Options : Type 0 where
  pub keywords : ℕ
  pub queries : ℕ
  pub dmax : ℕ
  pub seed : ℕ

unfoldable pub make_seeded_keywords : ℕ → ℕ → List (List ℕ)
make_seeded_keywords count seed =
    map (λ i. codes "keyword/" ++ (to_string seed ++ (codes "/" ++ to_string i))) (range count)

-- `std::map<Token, LabelList>`.
abbrev pub TokenMap : Type 0
TokenMap = List (List ℕ × List (List ℕ))

unfoldable pub lookup : TokenMap → List ℕ → Option (List (List ℕ))
lookup [] token = none
lookup ((other, labels) ∷ entries) token =
    let later = lookup entries token in if same_token other token then some labels else later

-- `emplace` when the token was looked up.
unfoldable pub emplace_new : Option (List (List ℕ)) → TokenMap → List ℕ → List (List ℕ) → TokenMap
emplace_new none entries token labels = (token, labels) ∷ entries
emplace_new (some old) entries token labels = entries

unfoldable pub emplace : TokenMap → List ℕ → List (List ℕ) → TokenMap
emplace entries token labels = emplace_new (lookup entries token) entries token labels

unfoldable pub is_known : Option (List (List ℕ)) → Bool
is_known none = false
is_known (some labels) = true

module _ (b : Baseline) where
  open b use {group, hashing, aes_encrypt, aes_decrypt}

  -- The labels of the documents from `first + 1` on.
  unfoldable pub encrypt_documents : List ℕ → ℕ → ℕ → List (List ℕ)
  encrypt_documents key first zero = []
  encrypt_documents key first (suc count) =
      aes_encrypt key (encode_document (u64 (first + 1))) ∷ encrypt_documents key (suc first) count

  -- The loop over the genuine keywords from item `i` on.
  unfoldable pub load_items :
      ℕ
      → ℕ
      → ℕ
      → List (List ℕ)
      → ℕ
      → CuckooTable hashing
      → TokenMap
      → Result (CuckooTable hashing × TokenMap)
  load_items token_key key_key dmax [] i table entries = ok (table, entries)
  load_items token_key key_key dmax (keyword ∷ keywords) i table entries = do
    token ← direct_evaluate group token_key keyword
    output ← direct_evaluate group key_key keyword
    let labels = encrypt_documents (lse_aes_key output) (i * dmax) dmax
    let inserted = insert_token hashing table token
    let rest =
        load_items token_key key_key dmax keywords (suc i) inserted.1 (emplace entries token labels)
    if inserted.0 then rest else throw runtime_error

  -- `RandomToken` until the token is in no entry.
  unfoldable pub draw_unused : ℕ → TokenMap → group.Pool → Result (List ℕ × group.Pool)
  draw_unused zero entries pool = throw out_of_fuel
  draw_unused (suc fuel) entries pool =
      let (token, next) = group.generate_block group_element_bytes pool in
      let again = draw_unused fuel entries next in
      if is_known (lookup entries token) then again else ok (token, next)

  -- `RandomBlock` for each of so many labels.
  unfoldable pub random_blocks : ℕ → group.Pool → List (List ℕ) × group.Pool
  random_blocks zero pool = ([], pool)
  random_blocks (suc count) pool =
      let (block, next) = group.generate_block 16 pool in
      let (blocks, last) = random_blocks count next in (block ∷ blocks, last)

  -- The entries, and the pools of `RandomToken` and `RandomBlock`.
  abbrev pub Drawing : Type 0
  Drawing = TokenMap × (group.Pool × group.Pool)

  -- The generator that `FillEmpty` is given.
  unfoldable pub dummy_token : ℕ → Drawing → Result (List ℕ × Drawing)
  dummy_token dmax (entries, (token_pool, block_pool)) = do
    drawn ← draw_unused group.rejections entries token_pool
    let blocks = random_blocks dmax block_pool
    ok (drawn.0, (emplace entries drawn.0 blocks.0, (drawn.1, blocks.1)))

  unfoldable pub stored_token : CuckooTable hashing → Option ℕ → Result (List ℕ)
  stored_token table none = throw runtime_error
  stored_token table (some at) = ok (get_or table.bins at [])

  unfoldable pub sized_labels : ℕ → Option (List (List ℕ)) → Result (List (List ℕ))
  sized_labels dmax none = throw runtime_error
  sized_labels dmax (some labels) = if length labels == dmax then ok labels else throw runtime_error

  -- The loop over the labels of a query, whose documents are those from `first + 1` on.
  unfoldable pub opens_documents : List ℕ → ℕ → List (List ℕ) → Bool
  opens_documents key first [] = true
  opens_documents key first (label ∷ labels) =
      let rest = opens_documents key (suc first) labels in
      if decode_document (aes_decrypt key label) == u64 (first + 1) then rest else false

  -- The query of item `i`: how many components it decrypted.
  unfoldable pub search_item :
      ℕ
      → ℕ
      → ℕ
      → List ℕ
      → PreparedBlind
      → PreparedBlind
      → ℕ
      → CuckooTable hashing
      → TokenMap
      → Result ℕ
  search_item token_key key_key dmax keyword token_blind key_blind i table entries = do
    token ← (evaluate_prepared group token_key keyword token_blind).1
    output ← (evaluate_prepared group key_key keyword key_blind).1
    stored ← stored_token table (find_token hashing table token)
    labels ← sized_labels dmax (lookup entries stored)
    if opens_documents (lse_aes_key output) (i * dmax) labels then ok dmax else throw runtime_error

  -- The loop over the queries: `query_successes` and `decrypt_component_attempts`, added up from the
  -- last query on, which wraps around to the same numbers. Each query has
  -- its blinds, so that the clauses without one are never reached.
  unfoldable pub search_items :
      ℕ
      → ℕ
      → ℕ
      → List (List ℕ)
      → List PreparedBlind
      → List PreparedBlind
      → ℕ
      → CuckooTable hashing
      → TokenMap
      → Result (ℕ × ℕ)
  search_items token_key key_key dmax [] token_blinds key_blinds i table entries = ok (0, 0)
  search_items token_key key_key dmax (keyword ∷ keywords) [] key_blinds i table entries =
      throw logic_error
  search_items token_key key_key dmax (keyword ∷ keywords) (tb ∷ token_blinds) [] i table entries =
      throw logic_error
  search_items token_key key_key dmax (keyword ∷ keywords) (tb ∷ token_blinds) (kb ∷ key_blinds) i
        table entries =
      do
        attempts ← search_item token_key key_key dmax keyword tb kb i table entries
        rest ←
            search_items token_key key_key dmax keywords token_blinds key_blinds (suc i) table
              entries
        ok (u64 (suc rest.0), u64 (attempts + rest.1))

  -- The metrics that are no times; the four counters of the table are its statistics.
  pub record Metrics : Type 0 where
    pub serialized_bytes : ℕ
    pub communication_bytes : ℕ
    pub dummy_records : ℕ
    pub capacity_slots : ℕ
    pub statistics : Relocations
    pub query_successes : ℕ
    pub decrypt_component_attempts : ℕ

  -- `Run`, with the pools of the secrets and blinds, of `RandomToken` and of `RandomBlock`.
  unfoldable pub run_baseline : Options → group.Pool → group.Pool → group.Pool → Result Metrics
  run_baseline options pool token_pool block_pool =
      let keywords = make_seeded_keywords options.keywords options.seed in
      let table = make_table hashing options.keywords options.seed in
      do
        token_key ← random_secret_key group pool
        key_key ← random_secret_key group token_key.1
        token_blinds ← prepare_blind_pool group options.queries key_key.1
        key_blinds ← prepare_blind_pool group options.queries token_blinds.1
        genuine ← load_items token_key.0 key_key.0 options.dmax keywords 0 table []
        filled ←
            fill_empty hashing (dummy_token options.dmax) genuine.0
              (genuine.1, (token_pool, block_pool))
        searched ←
            search_items token_key.0 key_key.0 options.dmax (take options.queries keywords)
              token_blinds.0 key_blinds.0 0 filled.1.0 filled.1.1.0
        let capacity = length filled.1.0.bins
        let serialized_bytes = u64 (capacity * u64 (group_element_bytes + options.dmax * 16))
        ok (record {
          serialized_bytes = serialized_bytes;
          communication_bytes =
              u64 (serialized_bytes + options.queries * 2 * communication_bytes_per_evaluation);
          dummy_records = filled.0;
          capacity_slots = capacity;
          statistics = filled.1.0.statistics;
          query_successes = searched.0;
          decrypt_component_attempts = searched.1;
        })
