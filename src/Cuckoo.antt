-- ===== src/Cuckoo.antt =====
-- `CuckooTable` of benchmarks/lse_protocol_benchmark.cpp, with its encodings of documents and
-- tokens. SipHash of Crypto++ and `std::mt19937_64` are a record of operations; tokens are lists of
-- bytes, and a pointer into the table is a position.
pub mod Positions
pub mod Insertion
pub mod Filling
use vlse.Aead.{store_little_endian, load_little_endian64}
use vlse.Base.{
  ℕ, zero, suc, ◌+◌, ◌-◌, ◌*◌, ◌/◌, ◌%◌, max, Bool, true, false, if◌then◌else◌, ◌&&◌, ◌==◌, List,
  [], ◌∷◌, ◌++◌, length, replicate, get_or, set, range, for_each, Option, none, some, Result, ok,
  ◌>>=◌, u8, u64, codes,
}

-- `EncodeDocument` and `DecodeDocument`: the loops are those of the labels.
unfoldable pub encode_document : ℕ → List ℕ
encode_document document = store_little_endian 8 document 0 (replicate 16 0)

unfoldable pub decode_document : List ℕ → ℕ
decode_document block = load_little_endian64 block

unfoldable pub low128_little_endian : List ℕ → List ℕ
low128_little_endian token =
    for_each (range 16) (λ i low. set low i (get_or token (length token - 1 - i) 0))
      (replicate 16 0)

-- `operator==` on arrays.
unfoldable pub same_token : List ℕ → List ℕ → Bool
same_token [] [] = true
same_token [] (y ∷ ys) = false
same_token (x ∷ xs) [] = false
same_token (x ∷ xs) (y ∷ ys) = x == y && same_token xs ys

pub record Hashing : Type 1 where
  -- SipHash-2-4 with 16 bytes of output, from a key and a message.
  pub siphash : List ℕ → List ℕ → List ℕ
  pub Engine : Type 0
  pub seed_engine : ℕ → Engine
  pub draw : Engine → ℕ × Engine

pub record Relocations : Type 0 where
  pub successful_inserts : ℕ
  pub failed_inserts : ℕ
  pub relocation_steps : ℕ
  pub maximum_relocation_chain : ℕ

abbrev pub relocation_limit : ℕ
relocation_limit = 1500

-- `key` of `Position`: the literal with its terminating zero.
unfoldable pub hash_key : ℕ → List ℕ
hash_key hash_index = set (codes "123456123456123" ++ (0 ∷ [])) 1 (u8 ((hash_index + 48) % 128))

module _ (h : Hashing) where
  open h use {siphash, Engine, seed_engine, draw}

  pub record CuckooTable : Type 0 where
    pub bins : List (List ℕ)
    pub occupied : List Bool
    pub random : Engine
    pub statistics : Relocations

  -- The constructor.
  unfoldable pub make_table : ℕ → ℕ → CuckooTable
  make_table keyword_count seed =
      let size = max 1 (u64 (u64 (keyword_count * 3) + 1) / 2) in
      record {
        bins = replicate size (replicate 384 0);
        occupied = replicate size false;
        random = seed_engine seed;
        statistics = record {
          successful_inserts = 0;
          failed_inserts = 0;
          relocation_steps = 0;
          maximum_relocation_chain = 0;
        };
      }

  -- `Position` in a table of so many bins.
  unfoldable pub position : ℕ → List ℕ → ℕ → ℕ
  position size token hash_index =
      load_little_endian64 (siphash (hash_key hash_index) (low128_little_endian token)) % size

  -- The first of the positions left that is not occupied.
  unfoldable pub first_free : CuckooTable → List ℕ → List ℕ → Option ℕ
  first_free table token [] = none
  first_free table token (hash ∷ hashes) =
      let here = position (length table.bins) token hash in
      let later = first_free table token hashes in
      if get_or table.occupied here false then later else some here

  -- The token takes a free position after so many relocations.
  unfoldable pub settle : CuckooTable → List ℕ → ℕ → ℕ → CuckooTable
  settle table token relocation here = record table {
    bins = set table.bins here token;
    occupied = set table.occupied here true;
    statistics = record table.statistics {
      successful_inserts = u64 (table.statistics.successful_inserts + 1);
      relocation_steps = u64 (table.statistics.relocation_steps + relocation);
      maximum_relocation_chain = max table.statistics.maximum_relocation_chain relocation;
    };
  }

  -- `std::swap(token, bins_[position])` at a random one of the three positions: the table, and the
  -- token that was there.
  unfoldable pub swap_random : CuckooTable → List ℕ → CuckooTable × List ℕ
  swap_random table token =
      let (number, random) = draw table.random in
      let here = position (length table.bins) token (number % 3) in
      (
        record table { bins = set table.bins here token; random = random },
        get_or table.bins here [],
      )

  unfoldable pub count_failure : CuckooTable → CuckooTable
  count_failure table = record table {
    statistics = record table.statistics {
      failed_inserts = u64 (table.statistics.failed_inserts + 1);
      relocation_steps = u64 (table.statistics.relocation_steps + relocation_limit);
      maximum_relocation_chain = max table.statistics.maximum_relocation_chain relocation_limit;
    };
  }

  -- The end of a round of `Insert`: at a free position, or onward.
  unfoldable pub end_round :
      CuckooTable → List ℕ → ℕ → Bool × CuckooTable → Option ℕ → Bool × CuckooTable
  end_round table token relocation onward (some here) = (true, settle table token relocation here)
  end_round table token relocation onward none = onward

  -- The loop of `Insert` with `left` rounds left.
  unfoldable pub relocate : ℕ → ℕ → List ℕ → CuckooTable → Bool × CuckooTable
  relocate zero relocation token table = (false, count_failure table)
  relocate (suc left) relocation token table =
      let (swapped, carried) = swap_random table token in
      let onward = relocate left (relocation + 1) carried swapped in
      end_round table token relocation onward (first_free table token (range 3))

  unfoldable pub insert_token : CuckooTable → List ℕ → Bool × CuckooTable
  insert_token table token = relocate relocation_limit 0 token table

  -- `Find` at the positions left.
  unfoldable pub find_from : CuckooTable → List ℕ → List ℕ → Option ℕ
  find_from table token [] = none
  find_from table token (hash ∷ hashes) =
      let here = position (length table.bins) token hash in
      let later = find_from table token hashes in
      if get_or table.occupied here false && same_token (get_or table.bins here []) token
      then some here
      else later

  unfoldable pub find_token : CuckooTable → List ℕ → Option ℕ
  find_token table token = find_from table token (range 3)

  -- `FillEmpty` from an index on, with so many bins to go: the generator may throw.
  unfoldable pub fill_from :
      {State : Type 0}
      → (State → Result (List ℕ × State))
      → ℕ
      → ℕ
      → CuckooTable
      → State
      → Result (ℕ × (CuckooTable × State))
  fill_from generator zero i table state = ok (0, (table, state))
  fill_from generator (suc left) i table state =
      let later = fill_from generator left (suc i) table state in
      if get_or table.occupied i false then later else do
        drawn ← generator state
        rest ←
            fill_from generator left (suc i)
              (record table {
                bins = set table.bins i drawn.0;
                occupied = set table.occupied i true;
              })
              drawn.1
        ok (suc rest.0, rest.1)

  unfoldable pub fill_empty :
      {State : Type 0}
      → (State → Result (List ℕ × State))
      → CuckooTable
      → State
      → Result (ℕ × (CuckooTable × State))
  fill_empty generator table state = fill_from generator (length table.bins) 0 table state
