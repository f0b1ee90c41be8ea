-- ===== src/Demo/Queries.antt =====
-- The two loops of `main` in paired_vlse/demo.cpp together.
use vlse.Aead.Laws.{decrypt_label-encrypt_label}
use vlse.Aead.{AeadLabel, Outputs, decrypt_label}
use vlse.Base.{
  ℕ, suc, ◌+◌, ◌^◌, ◌<◌, ◌≡◌, refl, ap, ◌∙◌, arith, Bool, true, false, Bool-cases, inl, inr, List,
  [], ◌∷◌, length, none, some, Result, ok, throw, Returns, >>=-eq-ok, subst, u64, ◌>>=◌, to_nat,
  ==_refl,
}
use vlse.Demo.{
  Libraries, Index, loaded, index_setting, k_epoch, k_component, insert_keyword, insert_keywords,
  is_document, any_opens, query_keyword, query_keywords,
}
use vlse.Derivation.{TokenKeyPair, derive_token_and_key}
use vlse.Filter.Answers.{count_if}
use vlse.Filter.Finds.{Finds, IsKept, insert-IsKept}
use vlse.Filter.Invariant.{IsFilter}
use vlse.Oprf.Laws.{evaluate_prepared-prepare_blind}
use vlse.Oprf.Powers.{IsGroup}
use vlse.Oprf.{PreparedBlind, direct_evaluate, prepare_blind, prepare_blind_pool, evaluate_prepared}

-- The libraries open what they sealed, make a context for every label, and compute in a group.
pub record IsSound (l : Libraries) : Type 0 where
  pub opens_sealed :
      (key nonce aad text ciphertext tag : List ℕ)
      → l.cipher.seal key nonce aad text ≡ some (ciphertext, tag)
      → l.cipher.unseal key nonce aad ciphertext tag ≡ ok (some text)
  pub makes_context :
      (key nonce aad ciphertext tag : List ℕ)
      → Returns (l.cipher.unseal key nonce aad ciphertext tag) (λ _. Unit {0})
  pub powers : IsGroup l.group

pub then_ok :
    {A B : Type 0} (r : Result A) (f : A → B)
    → Returns r (λ _. Unit {0})
    → Returns (r >>= λ a. ok (f a)) (λ _. Unit {0})
then_ok r f (a, run, t) = (f a, rw run refl, tt)

module _ (l : Libraries) (sound : IsSound l) where
  open l use {group, cipher, sha256}

  abbrev no_outputs : Outputs
  no_outputs = record { valid = false; document_identifier = 0 }

  abbrev decoded_as : ℕ → Result (Bool × Outputs) → Bool
  decoded_as i (ok decoded) = is_document l i decoded
  decoded_as i (throw e) = false

  -- A label that opens to the document of item `i`.
  abbrev opens : TokenKeyPair → ℕ → AeadLabel → Bool
  opens derived i label =
      decoded_as i
        (decrypt_label cipher derived.key k_epoch derived.token k_component label no_outputs)

  decrypt_label-Returns :
      (key : List ℕ) (epoch token component_index : ℕ) (label : AeadLabel) (outputs : Outputs)
      → Returns (decrypt_label cipher key epoch token component_index label outputs) (λ _. Unit {0})
  unfolding decrypt_label
  decrypt_label-Returns key epoch token component_index label outputs =
      then_ok _ _ (sound.makes_context key label.nonce _ label.ciphertext label.tag)

  any_opens-finds :
      (derived : TokenKeyPair) (i : ℕ) (candidates : List AeadLabel)
      → 0 < count_if (opens derived i) candidates
      → any_opens l derived i candidates ≡ ok true
  unfolding any_opens count_if
  any_opens-finds derived i [] some_open = absurd (omega arith)
  any_opens-finds derived i (label ∷ candidates) some_open =
      let (decoded, run, t) =
        decrypt_label-Returns derived.key k_epoch derived.token k_component label no_outputs in
      elim (Bool-cases (is_document l i decoded)) [
        | inl here ↦ rw (run, here) refl
        | inr not_here ↦
            let closed : opens derived i label ≡ false = ap (decoded_as i) run ∙ not_here in
            rw (run, not_here)
              (any_opens-finds derived i candidates (omega (arith, some_open, ap to_nat closed)))
      ]

  -- The index finds a label for the keyword that opens to the document of item `i`.
  pub record IsLoaded (key : ℕ) (keyword : List ℕ) (i : ℕ) (index : Index l) : Type 0 where
    pub output : List ℕ
    pub evaluated : direct_evaluate group key keyword ≡ ok output
    pub finds :
        Finds
          (index_setting l)
          index
          (derive_token_and_key sha256 output).token
          (opens (derive_token_and_key sha256 output) i)

  pub insert_keyword-IsLoaded :
      (key : ℕ) (keyword : List ℕ) (i : ℕ) (index index' : Index l)
      → IsFilter (index_setting l) index
      → index.padded ≡ false
      → insert_keyword l key keyword i index ≡ ok (true, index')
      → IsKept (index_setting l) index index'
        × (index'.filled_slots ≡ index.filled_slots + 1)
        × IsLoaded key keyword i index'
  unfolding insert_keyword
  insert_keyword-IsLoaded key keyword i index index' v unpadded e =
      let small : u64 (i + 1) < 2 ^ 64 = omega arith in
      let (output, evaluated, labelled) = >>=-eq-ok _ _ e in
      let derived : TokenKeyPair = derive_token_and_key sha256 output in
      let (label, sealed, inserted) = >>=-eq-ok _ _ labelled in
      let (kept, counted, found) =
        insert-IsKept (index_setting l) index index' derived.token label v unpadded inserted in
      let opened =
        decrypt_label-encrypt_label cipher sound.opens_sealed derived.key k_epoch derived.token
          k_component true (u64 (i + 1)) no_outputs label small sealed in
      let matched : is_document l i
            (true, record { valid = true; document_identifier = u64 (i + 1) })
          ≡ true =
        unfold is_document in ==_refl (u64 (i + 1)) in
      (
        kept,
        counted,
        record {
          output = output;
          evaluated = evaluated;
          finds = found (opens derived i) (ap (decoded_as i) opened ∙ matched);
        },
      )

  keep :
      (index : Index l)
      → IsFilter (index_setting l) index
      → index.padded ≡ false
      → IsKept (index_setting l) index index
  keep index v unpadded = record {
    valid = v;
    unpadded = unpadded;
    same_layout = refl;
    finds = λ token pick found. found;
  }

  keep_both :
      (s t u : Index l)
      → IsKept (index_setting l) s t
      → IsKept (index_setting l) t u
      → IsKept (index_setting l) s u
  keep_both s t u first second = record {
    valid = second.valid;
    unpadded = second.unpadded;
    same_layout = second.same_layout ∙ first.same_layout;
    finds = λ token pick found. second.finds token pick (first.finds token pick found);
  }

  -- Every keyword of a list is loaded under the items from `i` on.
  unfoldable pub AllLoaded : ℕ → List (List ℕ) → ℕ → Index l → Type 0
  AllLoaded key [] i index = Unit {0}
  AllLoaded key (keyword ∷ keywords) i index =
      IsLoaded key keyword i index × AllLoaded key keywords (suc i) index

  pub insert_keywords-AllLoaded :
      (key : ℕ) (keywords : List (List ℕ)) (i : ℕ) (index index' : Index l)
      → IsFilter (index_setting l) index
      → index.padded ≡ false
      → insert_keywords l key keywords i index ≡ ok (loaded index')
      → IsKept (index_setting l) index index'
        × (index'.filled_slots ≡ index.filled_slots + length keywords)
        × AllLoaded key keywords i index'
  unfolding insert_keywords AllLoaded
  insert_keywords-AllLoaded key [] i index index' v unpadded e =
      let same : index ≡ index' = cc in
      (
        subst (IsKept (index_setting l) index) same (keep index v unpadded),
        omega (arith, ap (λ (s : Index l). s.filled_slots) same),
        tt,
      )
  insert_keywords-AllLoaded key (keyword ∷ keywords) i index index' v unpadded e =
      let (inserted, run, rest) =
        >>=-eq-ok {From = Bool × Index l} (insert_keyword l key keyword i index) _ e in
      elim (Bool-cases inserted.0) [
        | inr failed ↦ absurd (let no = rw failed at rest in cc)
        | inl done ↦
            let step : insert_keyword l key keyword i index ≡ ok (true, inserted.1) =
              run ∙ ap (λ b. ok (b, inserted.1)) done in
            let (kept, one, first) =
              insert_keyword-IsLoaded key keyword i index inserted.1 v unpadded step in
            let (later, more, others) =
              insert_keywords-AllLoaded key keywords (suc i) inserted.1 index' kept.valid
                kept.unpadded (rw done at rest) in
            (
              keep_both index inserted.1 index' kept later,
              omega (arith, one, more),
              (
                record {
                  output = first.output;
                  evaluated = first.evaluated;
                  finds = later.finds _ _ first.finds;
                },
                others,
              ),
            )
      ]

  query_keyword-IsLoaded :
      (key : ℕ) (keyword : List ℕ) (blind : PreparedBlind) (i : ℕ) (index : Index l)
      (pool pool' : group.Pool)
      → prepare_blind group pool ≡ ok (blind, pool')
      → IsLoaded key keyword i index
      → query_keyword l key keyword blind i index ≡ ok true
  unfolding query_keyword
  query_keyword-IsLoaded key keyword blind i index pool pool' prepared v =
      let (candidates, query, found) = v.finds in
      let online : (evaluate_prepared group key keyword blind).1 ≡ ok v.output =
        (evaluate_prepared-prepare_blind group sound.powers key keyword keyword pool pool' blind
          prepared).0
        ∙ v.evaluated in
      rw (online, query) (any_opens-finds (derive_token_and_key sha256 v.output) i candidates found)

  pub query_keywords-AllLoaded :
      (key : ℕ) (keywords : List (List ℕ)) (blinds : List PreparedBlind) (i : ℕ) (index : Index l)
      (pool pool' : group.Pool)
      → prepare_blind_pool group (length keywords) pool ≡ ok (blinds, pool')
      → AllLoaded key keywords i index
      → query_keywords l key keywords blinds i index ≡ ok none
  unfolding query_keywords prepare_blind_pool AllLoaded
  query_keywords-AllLoaded key [] blinds i index pool pool' prepared all = refl
  query_keywords-AllLoaded key (keyword ∷ keywords) blinds i index pool pool' prepared (v, all) =
      let (first, drawn, more) =
        >>=-eq-ok {From = PreparedBlind × group.Pool} (prepare_blind group pool) _ prepared in
      let (rest, later, made) =
        >>=-eq-ok {From = List PreparedBlind × group.Pool}
          (prepare_blind_pool group (length keywords) first.1) _ more in
      let here : first.0 ∷ rest.0 ≡ blinds = cc in
      let asked = query_keyword-IsLoaded key keyword first.0 i index pool first.1 drawn v in
      subst
        (λ (b : List PreparedBlind). query_keywords l key (keyword ∷ keywords) b i index ≡ ok none)
        here
        (rw asked
          (query_keywords-AllLoaded key keywords rest.0 (suc i) index first.1 rest.1 later all))

  -- If the cipher opens what it sealed and makes a context for every label, the modulus is above 3
  -- and its predecessor is the cofactor times the subgroup order, powers modulo it, of numbers
  -- below it, stay below it, compose and, if the number is not 0, satisfy Fermat's little theorem,
  -- and inverses modulo the subgroup order are inverses, then after the first loop of the demo has
  -- inserted all keywords into a filter that satisfies the invariant and is not padded, the second
  -- loop finds, with as many prepared blinds, every keyword authenticated with its document.
  pub query_keywords-insert_keywords :
      (key : ℕ) (keywords : List (List ℕ)) (index index' : Index l) (blinds : List PreparedBlind)
      (pool pool' : group.Pool)
      → IsFilter (index_setting l) index
      → index.padded ≡ false
      → insert_keywords l key keywords 0 index ≡ ok (loaded index')
      → prepare_blind_pool group (length keywords) pool ≡ ok (blinds, pool')
      → query_keywords l key keywords blinds 0 index' ≡ ok none
  query_keywords-insert_keywords key keywords index index' blinds pool pool' v unpadded run
        prepared =
      let (kept, counted, all) =
        insert_keywords-AllLoaded key keywords 0 index index' v unpadded run in
      query_keywords-AllLoaded key keywords blinds 0 index' pool pool' prepared all
