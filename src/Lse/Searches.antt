-- ===== src/Lse/Searches.antt =====
-- The setup, the padding and the search of benchmarks/lse_protocol_benchmark.cpp together.
use vlse.Base.{
  ℕ, suc, ◌+◌, ◌*◌, ◌≡◌, refl, ap, ◌∙◌, arith, true, ◌==◌, eq→==, List, [], ◌∷◌, length, take, some,
  ok, >>=-eq-ok, u64,
}
use vlse.Cuckoo.Filling.{fill_empty-Found, fill_empty-keeps}
use vlse.Cuckoo.Positions.{IsShaped}
use vlse.Cuckoo.{CuckooTable, fill_empty}
use vlse.Derivation.{lse_aes_key}
use vlse.Lse.Lookups.{
  lookup-dummy_token, opens_documents-encrypt_documents, length-encrypt_documents,
}
use vlse.Lse.{
  Baseline, TokenMap, Drawing, lookup, encrypt_documents, load_items, dummy_token, stored_token,
  sized_labels, search_item, search_items,
}
use vlse.Oprf.Laws.{evaluate_prepared-prepare_blind}
use vlse.Oprf.{PreparedBlind, direct_evaluate, prepare_blind, prepare_blind_pool, evaluate_prepared}
use vlse.Lse.Setup.{
  IsFaithful, Distinct, IsStored, AllStored, IsGrown, AllStored-grown, AllStored-take, Unused,
  Each-all, load_items-AllStored,
}

module _ (b : Baseline) (faithful : IsFaithful b) (token_key key_key dmax : ℕ) where
  open b use {group, hashing}

  abbrev Table : Type 0
  Table = CuckooTable hashing

  abbrev evaluates_fresh :
      (key : ℕ) (keyword : List ℕ) (blind : PreparedBlind) (pool pool' : group.Pool)
      → prepare_blind group pool ≡ ok (blind, pool')
      → (evaluate_prepared group key keyword blind).1 ≡ direct_evaluate group key keyword
  evaluates_fresh key keyword blind pool pool' prepared =
      (evaluate_prepared-prepare_blind group faithful.powers key keyword keyword pool pool' blind
        prepared).0

  search_item-IsStored :
      (keyword : List ℕ) (tb kb : PreparedBlind) (i : ℕ) (table : Table) (entries : TokenMap)
      → (evaluate_prepared group token_key keyword tb).1 ≡ direct_evaluate group token_key keyword
      → (evaluate_prepared group key_key keyword kb).1 ≡ direct_evaluate group key_key keyword
      → IsStored b faithful token_key key_key dmax keyword i table entries
      → search_item b token_key key_key dmax keyword tb kb i table entries ≡ ok dmax
  unfolding search_item stored_token sized_labels
  search_item-IsStored keyword tb kb i table entries online online_key v =
      let (at, run, there) = v.found in
      let key : List ℕ = lse_aes_key v.output in
      let first : (evaluate_prepared group token_key keyword tb).1 ≡ ok v.token =
        online ∙ v.tokened in
      let second : (evaluate_prepared group key_key keyword kb).1 ≡ ok v.output =
        online_key ∙ v.keyed in
      let whole : length (encrypt_documents b key (i * dmax) dmax) == dmax ≡ true =
        eq→== _ _ (length-encrypt_documents b key (i * dmax) dmax) in
      let opened = opens_documents-encrypt_documents b faithful.aes key (i * dmax) dmax in
      rw (first, second, run, there, v.labelled, whole, opened) refl

  search_items-AllStored :
      (keywords : List (List ℕ)) (token_blinds key_blinds : List PreparedBlind) (i : ℕ)
      (table : Table) (entries : TokenMap) (pool pool' key_pool key_pool' : group.Pool)
      → prepare_blind_pool group (length keywords) pool ≡ ok (token_blinds, pool')
      → prepare_blind_pool group (length keywords) key_pool ≡ ok (key_blinds, key_pool')
      → AllStored b faithful token_key key_key dmax keywords i table entries
      → search_items b token_key key_key dmax keywords token_blinds key_blinds i table entries
        ≡ ok (u64 (length keywords), u64 (length keywords * dmax))
  unfolding search_items prepare_blind_pool AllStored
  search_items-AllStored [] token_blinds key_blinds i table entries pool pool' key_pool key_pool'
        prepared key_prepared all =
      let nothing : 0 ≡ u64 (0 * dmax) = omega arith in ap (λ t. ok (0, t)) nothing
  search_items-AllStored (keyword ∷ keywords) token_blinds key_blinds i table entries pool pool'
        key_pool key_pool' prepared key_prepared (v, all) =
      let (tb, drawn, more) =
        >>=-eq-ok {From = PreparedBlind × group.Pool} (prepare_blind group pool) _ prepared in
      let (tbs, later, made) =
        >>=-eq-ok {From = List PreparedBlind × group.Pool}
          (prepare_blind_pool group (length keywords) tb.1) _ more in
      let (kb, key_drawn, key_more) =
        >>=-eq-ok {From = PreparedBlind × group.Pool} (prepare_blind group key_pool) _
          key_prepared in
      let (kbs, key_later, key_made) =
        >>=-eq-ok {From = List PreparedBlind × group.Pool}
          (prepare_blind_pool group (length keywords) kb.1) _ key_more in
      let here : tb.0 ∷ tbs.0 ≡ token_blinds = cc in
      let key_here : kb.0 ∷ kbs.0 ≡ key_blinds = cc in
      let asked =
        search_item-IsStored keyword tb.0 kb.0 i table entries
          (evaluates_fresh token_key keyword tb.0 pool tb.1 drawn)
          (evaluates_fresh key_key keyword kb.0 key_pool kb.1 key_drawn) v in
      let others =
        search_items-AllStored keywords tbs.0 kbs.0 (suc i) table entries tb.1 tbs.1 kb.1 kbs.1
          later key_later all in
      let product : dmax + length keywords * dmax ≡ length (keyword ∷ keywords) * dmax =
        grind arith in
      let count : u64 (suc (u64 (length keywords))) ≡ u64 (suc (length keywords)) = omega arith in
      let sum : u64 (dmax + u64 (length keywords * dmax))
          ≡ u64 (length (keyword ∷ keywords) * dmax) =
        omega (arith, product) in
      rw (← here, ← key_here)
        (rw (asked, others)
          (ap (λ n. ok (n, u64 (dmax + u64 (length keywords * dmax)))) count
            ∙ ap (λ n. ok (u64 (suc (length keywords)), n)) sum))

  -- In the baseline protocol, if AES decrypts the blocks that it encrypted, the modulus is above 3
  -- and its predecessor is the cofactor times the subgroup order, powers modulo it, of numbers
  -- below it, stay below it, compose and, if the number is not 0, satisfy Fermat's little theorem,
  -- and inverses modulo the subgroup order are inverses, and no two keywords evaluate to the same
  -- token, then after the setup has loaded all keywords into an empty map and a well-shaped table,
  -- and the padding has filled the table, the queries of the first keywords, with as many prepared
  -- blinds of both keys, all succeed, with one attempt for each of the documents, both counted in
  -- 64 bits.
  pub search_items-load_items :
      (keywords : List (List ℕ)) (queries n : ℕ) (table : Table) (genuine : Table × TokenMap)
      (pools : group.Pool × group.Pool) (filled : ℕ × (Table × Drawing b))
      (token_blinds key_blinds : List PreparedBlind) (pool pool' key_pool key_pool' : group.Pool)
      → IsShaped hashing n table
      → Distinct (direct_evaluate group token_key) keywords
      → load_items b token_key key_key dmax keywords 0 table [] ≡ ok genuine
      → fill_empty hashing (dummy_token b dmax) genuine.0 (genuine.1, pools) ≡ ok filled
      → prepare_blind_pool group (length (take queries keywords)) pool ≡ ok (token_blinds, pool')
      → prepare_blind_pool group (length (take queries keywords)) key_pool
        ≡ ok (key_blinds, key_pool')
      → search_items b token_key key_key dmax
          (take queries keywords)
          token_blinds
          key_blinds
          0
          filled.1.0
          filled.1.1.0
        ≡ ok (u64 (length (take queries keywords)), u64 (length (take queries keywords) * dmax))
  search_items-load_items keywords queries n table genuine pools filled token_blinds key_blinds pool
        pool' key_pool key_pool' v distinct run padded prepared key_prepared =
      let (shaped, grown, all) =
        load_items-AllStored b faithful token_key key_key dmax keywords 0 n table genuine.0 []
          genuine.1 v
          (Each-all (Unused b faithful token_key key_key dmax [])
            (λ keyword t evaluated. unfold lookup in refl) keywords)
          distinct run in
      let kept : IsGrown b faithful token_key key_key dmax genuine.0 filled.1.0 genuine.1
          filled.1.1.0 =
        record {
          finds =
              (fill_empty-Found hashing (dummy_token b dmax) n genuine.0 (genuine.1, pools) filled
                shaped padded).1;
          looks = λ t labels.
              fill_empty-keeps hashing (dummy_token b dmax)
                (λ (s : Drawing b). lookup s.0 t ≡ some labels) (lookup-dummy_token b dmax t labels)
                genuine.0 (genuine.1, pools) filled padded;
        } in
      search_items-AllStored (take queries keywords) token_blinds key_blinds 0 filled.1.0
        filled.1.1.0 pool pool' key_pool key_pool' prepared key_prepared
        (AllStored-take b faithful token_key key_key dmax queries keywords 0 filled.1.0 filled.1.1.0
          (AllStored-grown b faithful token_key key_key dmax keywords 0 genuine.0 filled.1.0
            genuine.1 filled.1.1.0 kept all))
