-- ===== src/Lse/Lookups.antt =====
-- The entries of benchmarks/lse_protocol_benchmark.cpp: what `emplace` keeps, and what the labels of
-- an item open to.
use vlse.Aead.Laws.{load_bytes}
use vlse.Aead.{store_little_endian}
use vlse.Base.{
  ℕ, zero, suc, ◌+◌, ◌^◌, ◌<◌, ◌≡◌, ◌≢◌, refl, sym, ap, ◌∙◌, arith, inl, inr, true, ==_refl,
  Bool-cases, Option-cases, List, ◌∷◌, length, for_each, none, some, ok, >>=-eq-ok, u64,
}
use vlse.Cuckoo.Positions.{same_token_refl, same_token→eq}
use vlse.Cuckoo.{same_token, encode_document, decode_document}
use vlse.Lse.{
  Baseline, TokenMap, lookup, emplace, emplace_new, encrypt_documents, draw_unused, random_blocks,
  Drawing, dummy_token, opens_documents,
}

-- Decoding the block of a 64-bit document identifier gives the identifier back.
pub decode_document-encode_document :
    (document : ℕ) → document < 2 ^ 64 → decode_document (encode_document document) ≡ document
unfolding decode_document encode_document store_little_endian for_each
decode_document-encode_document document small =
    load_bytes _ document small (refl, (refl, (refl, (refl, (refl, (refl, (refl, (refl, tt))))))))

length-encode_document : (document : ℕ) → length (encode_document document) ≡ 16
unfolding encode_document store_little_endian for_each
length-encode_document document = refl

lookup-new :
    (entries : TokenMap) (token : List ℕ) (labels : List (List ℕ))
    → lookup ((token, labels) ∷ entries) token ≡ some labels
unfolding lookup
lookup-new entries token labels = rw (same_token_refl token) refl

-- A new entry is found.
pub lookup-emplace_self :
    (entries : TokenMap) (token : List ℕ) (labels : List (List ℕ))
    → lookup entries token ≡ none
    → lookup (emplace entries token labels) token ≡ some labels
unfolding emplace emplace_new
lookup-emplace_self entries token labels absent = rw absent (lookup-new entries token labels)

-- An entry that is there stays, whatever is added.
pub lookup-emplace :
    (entries : TokenMap) (token other : List ℕ) (labels old : List (List ℕ))
    → lookup entries other ≡ some old
    → lookup (emplace entries token labels) other ≡ some old
unfolding emplace emplace_new
lookup-emplace entries token other labels old there = elim (Option-cases (lookup entries token)) [
  | inr (known, e) ↦ rw e there
  | inl absent ↦ rw absent (pushed absent)
]
  where
    pushed : lookup entries token ≡ none → lookup ((token, labels) ∷ entries) other ≡ some old
    pushed absent = elim (Bool-cases (same_token token other)) [
      | inl same ↦
          absurd (let no = ap (lookup entries) (same_token→eq token other same) ∙ there in cc)
      | inr apart ↦ (unfold lookup in rw apart there)
    ]

-- A token that is not there and is not the one added is still not there.
pub lookup-emplace_absent :
    (entries : TokenMap) (token other : List ℕ) (labels : List (List ℕ))
    → token ≢ other
    → lookup entries other ≡ none
    → lookup (emplace entries token labels) other ≡ none
unfolding emplace emplace_new
lookup-emplace_absent entries token other labels apart absent =
    elim (Option-cases (lookup entries token)) [
      | inr (known, e) ↦ rw e absent
      | inl new ↦ rw new pushed
    ]
  where
    pushed : lookup ((token, labels) ∷ entries) other ≡ none
    pushed = elim (Bool-cases (same_token token other)) [
      | inl same ↦ absurd (apart (same_token→eq token other same))
      | inr differs ↦ (unfold lookup in rw differs absent)
    ]

module _ (b : Baseline) where
  open b use {group, aes_encrypt, aes_decrypt}

  -- The generator of the dummies keeps every entry.
  pub lookup-dummy_token :
      (dmax : ℕ) (token : List ℕ) (labels : List (List ℕ)) (s : Drawing b)
      (drawn : List ℕ × Drawing b)
      → dummy_token b dmax s ≡ ok drawn
      → lookup s.0 token ≡ some labels
      → lookup drawn.1.0 token ≡ some labels
  unfolding dummy_token
  lookup-dummy_token dmax token labels (entries, (token_pool, block_pool)) drawn run there =
      let (fresh, first, made) =
        >>=-eq-ok {From = List ℕ × group.Pool} (draw_unused b group.rejections entries token_pool) _
          run in
      let same : (
        fresh.0,
        (
          emplace entries fresh.0 (random_blocks b dmax block_pool).0,
          (fresh.1, (random_blocks b dmax block_pool).1),
        ),
      )
          ≡ drawn =
        cc in
      ap (λ (d : List ℕ × Drawing b). lookup d.1.0 token) (sym same)
      ∙ lookup-emplace entries fresh.0 token (random_blocks b dmax block_pool).0 labels there

  module _
      (aes : (key block : List ℕ)
        → length block ≡ 16
        → aes_decrypt key (aes_encrypt key block) ≡ block) where
    pub opens_documents-encrypt_documents :
        (key : List ℕ) (first count : ℕ)
        → opens_documents b key first (encrypt_documents b key first count) ≡ true
    unfolding opens_documents encrypt_documents
    opens_documents-encrypt_documents key first zero = refl
    opens_documents-encrypt_documents key first (suc count) =
        let document : ℕ = u64 (first + 1) in
        let small : document < 2 ^ 64 = omega arith in
        rw
          (
            aes key (encode_document document) (length-encode_document document),
            decode_document-encode_document document small,
            ==_refl document,
          )
          (opens_documents-encrypt_documents key (suc first) count)

  pub length-encrypt_documents :
      (key : List ℕ) (first count : ℕ) → length (encrypt_documents b key first count) ≡ count
  unfolding encrypt_documents
  length-encrypt_documents key first zero = refl
  length-encrypt_documents key first (suc count) =
      ap suc (length-encrypt_documents key (suc first) count)
