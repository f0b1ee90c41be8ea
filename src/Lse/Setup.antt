-- ===== src/Lse/Setup.antt =====
-- The setup of benchmarks/lse_protocol_benchmark.cpp: what the table and the entries hold after it.
use vlse.Base.{
  ℕ, zero, suc, ◌*◌, ◌≡◌, ◌≢◌, refl, sym, ap, ◌∙◌, inl, inr, Bool, true, Bool-cases, List, [], ◌∷◌,
  length, take, none, some, Result, ok, >>=-eq-ok, subst,
}
use vlse.Cuckoo.Insertion.{Found, insert_token-Found}
use vlse.Cuckoo.Positions.{IsShaped}
use vlse.Cuckoo.{CuckooTable, insert_token}
use vlse.Derivation.{lse_aes_key}
use vlse.Lse.Lookups.{lookup-emplace_self, lookup-emplace, lookup-emplace_absent}
use vlse.Oprf.Powers.{IsGroup}
use vlse.Lse.{Baseline, TokenMap, lookup, emplace, encrypt_documents, load_items}
use vlse.Oprf.{direct_evaluate}

-- AES decrypts the blocks that it encrypted, and NTL computes in a group.
pub record IsFaithful (b : Baseline) : Type 0 where
  pub aes :
      (key block : List ℕ) → length block ≡ 16 → b.aes_decrypt key (b.aes_encrypt key block) ≡ block
  pub powers : IsGroup b.group

unfoldable pub Each : (List ℕ → Type 0) → List (List ℕ) → Type 0
Each P [] = Unit {0}
Each P (keyword ∷ keywords) = P keyword × Each P keywords

pub Each-map :
    (P Q R : List ℕ → Type 0)
    → ((keyword : List ℕ) → P keyword → Q keyword → R keyword)
    → (keywords : List (List ℕ)) → Each P keywords
    → Each Q keywords
    → Each R keywords
unfolding Each
Each-map P Q R both [] ps qs = tt
Each-map P Q R both (keyword ∷ keywords) (p, ps) (q, qs) =
    (both keyword p q, Each-map P Q R both keywords ps qs)

pub Each-all :
    (P : List ℕ → Type 0)
    → ((keyword : List ℕ) → P keyword)
    → (keywords : List (List ℕ)) → Each P keywords
unfolding Each
Each-all P all [] = tt
Each-all P all (keyword ∷ keywords) = (all keyword, Each-all P all keywords)

-- No two keywords of the list evaluate to the same token.
unfoldable pub Distinct : (List ℕ → Result (List ℕ)) → List (List ℕ) → Type 0
Distinct evaluate [] = Unit {0}
Distinct evaluate (keyword ∷ keywords) =
    Each (λ other. evaluate keyword ≢ evaluate other) keywords × Distinct evaluate keywords

module _ (b : Baseline) (faithful : IsFaithful b) (token_key key_key dmax : ℕ) where
  open b use {group, hashing}

  abbrev pub Table : Type 0
  Table = CuckooTable hashing

  -- The table finds the keyword's token, and the entries have its labels for item `i`.
  pub record IsStored (keyword : List ℕ) (i : ℕ) (table : Table) (entries : TokenMap) : Type 0 where
    pub token : List ℕ
    pub output : List ℕ
    pub tokened : direct_evaluate group token_key keyword ≡ ok token
    pub keyed : direct_evaluate group key_key keyword ≡ ok output
    pub found : Found hashing table token
    pub labelled :
        lookup entries token ≡ some (encrypt_documents b (lse_aes_key output) (i * dmax) dmax)

  unfoldable pub AllStored : List (List ℕ) → ℕ → Table → TokenMap → Type 0
  AllStored [] i table entries = Unit {0}
  AllStored (keyword ∷ keywords) i table entries =
      IsStored keyword i table entries × AllStored keywords (suc i) table entries

  -- What a step keeps: tokens that are found, and entries.
  pub record IsGrown (table table' : Table) (entries entries' : TokenMap) : Type 0 where
    pub finds : (t : List ℕ) → Found hashing table t → Found hashing table' t
    pub looks :
        (t : List ℕ) (labels : List (List ℕ))
        → lookup entries t ≡ some labels
        → lookup entries' t ≡ some labels

  IsStored-grown :
      (keyword : List ℕ) (i : ℕ) (table table' : Table) (entries entries' : TokenMap)
      → IsGrown table table' entries entries'
      → IsStored keyword i table entries
      → IsStored keyword i table' entries'
  IsStored-grown keyword i table table' entries entries' g v = record {
    token = v.token;
    output = v.output;
    tokened = v.tokened;
    keyed = v.keyed;
    found = g.finds v.token v.found;
    labelled = g.looks v.token _ v.labelled;
  }

  pub AllStored-grown :
      (keywords : List (List ℕ)) (i : ℕ) (table table' : Table) (entries entries' : TokenMap)
      → IsGrown table table' entries entries'
      → AllStored keywords i table entries
      → AllStored keywords i table' entries'
  unfolding AllStored
  AllStored-grown [] i table table' entries entries' g all = tt
  AllStored-grown (keyword ∷ keywords) i table table' entries entries' g (v, all) = (
    IsStored-grown keyword i table table' entries entries' g v,
    AllStored-grown keywords (suc i) table table' entries entries' g all,
  )

  pub AllStored-take :
      (queries : ℕ) (keywords : List (List ℕ)) (i : ℕ) (table : Table) (entries : TokenMap)
      → AllStored keywords i table entries
      → AllStored (take queries keywords) i table entries
  unfolding AllStored
  AllStored-take zero keywords i table entries all = tt
  AllStored-take (suc queries) [] i table entries all = tt
  AllStored-take (suc queries) (keyword ∷ keywords) i table entries (v, all) =
      (v, AllStored-take queries keywords (suc i) table entries all)

  abbrev pub Unused : TokenMap → List ℕ → Type 0
  Unused entries keyword =
      (t : List ℕ) → direct_evaluate group token_key keyword ≡ ok t → lookup entries t ≡ none

  pub load_items-AllStored :
      (keywords : List (List ℕ)) (i n : ℕ) (table table' : Table) (entries entries' : TokenMap)
      → IsShaped hashing n table
      → Each (Unused entries) keywords
      → Distinct (direct_evaluate group token_key) keywords
      → load_items b token_key key_key dmax keywords i table entries ≡ ok (table', entries')
      → IsShaped hashing n table'
        × IsGrown table table' entries entries'
        × AllStored keywords i table' entries'
  unfolding load_items AllStored Each Distinct
  load_items-AllStored [] i n table table' entries entries' v unused distinct run =
      let same : (table, entries) ≡ (table', entries') = cc in
      subst
        (λ (r : Table × TokenMap).
          IsShaped hashing n r.0 × IsGrown table r.0 entries r.1 × Unit {0})
        same (v, record { finds = λ t found. found; looks = λ t labels there. there }, tt)
  load_items-AllStored (keyword ∷ keywords) i n table table' entries entries' v (new, unused)
        (apart, distinct) run =
      let (token, tokened, more) =
        >>=-eq-ok {From = List ℕ} (direct_evaluate group token_key keyword) _ run in
      let (output, keyed, rest) =
        >>=-eq-ok {From = List ℕ} (direct_evaluate group key_key keyword) _ more in
      let labels : List (List ℕ) = encrypt_documents b (lse_aes_key output) (i * dmax) dmax in
      let inserted : Bool × Table = insert_token hashing table token in
      elim (Bool-cases inserted.0) [
        | inr failed ↦ absurd (let no = rw failed at rest in cc)
        | inl done ↦
            let step : inserted ≡ (true, inserted.1) = ap (λ f. (f, inserted.1)) done in
            let (shaped, finds) = insert_token-Found hashing n table inserted.1 token v step in
            let absent : lookup entries token ≡ none = new token tokened in
            let still : Each (Unused (emplace entries token labels)) keywords =
              Each-map _ _ (Unused (emplace entries token labels))
                (λ other free differs t evaluated.
                  lookup-emplace_absent entries token t labels
                    (λ same. differs (tokened ∙ ap ok same ∙ sym evaluated)) (free t evaluated))
                keywords unused apart in
            let (last, grown, all) =
              load_items-AllStored keywords (suc i) n inserted.1 table'
                (emplace entries token labels) entries' shaped still distinct (rw done at rest) in
            (
              last,
              record {
                finds = λ t found. grown.finds t (finds t (inl found));
                looks = λ t old there.
                    grown.looks t old (lookup-emplace entries token t labels old there);
              },
              (
                record {
                  token = token;
                  output = output;
                  tokened = tokened;
                  keyed = keyed;
                  found = grown.finds token (finds token (inr refl));
                  labelled =
                      grown.looks token labels (lookup-emplace_self entries token labels absent);
                },
                all,
              ),
            )
      ]
