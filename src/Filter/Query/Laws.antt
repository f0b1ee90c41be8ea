-- ===== src/Filter/Query/Laws.antt =====
-- What a query returns: the payloads of the records with the token's fingerprint, in the order of
-- the slots, of the first candidate bucket and then of the second.
use vlse.Base.{
  ℕ, zero, suc, ◌+◌, ◌*◌, ◌≤◌, ◌<◌, ◌≡◌, refl, sym, ap, ◌∙◌, arith, true, false, not, ◌==◌,
  if◌then◌else◌, List, [], ◌∷◌, ◌++◌, length, set, take, drop, replicate, length-append,
  length-drop, Option, none, some, ok, lt→ltb, Bool-cases, inl, inr,
}
use mathlib.Core.List.{append-nil, append_assoc}
use vlse.Filter.Bucket.{Record, Bucket, slots_per_bucket}
use vlse.Filter.Query.{
  Collected, collect_step, collect_from, collect_matches, query_buckets, query_into, first_matches,
  query_all, contains,
}
use vlse.Filter.State.{Setting, KeyMetadata, Filter, metadata, read}
use vlse.Filter.Store.Laws.{length-read_bucket}

module _ {Payload : Type 0} where
  -- The payloads under a fingerprint, in slot order.
  unfoldable pub matches : ℕ → Bucket Payload → List Payload
  matches fingerprint [] = []
  matches fingerprint (r ∷ b) =
      if r.fingerprint == fingerprint
      then r.payload ∷ matches fingerprint b
      else matches fingerprint b

  pub length-matches :
      (fingerprint : ℕ) (b : Bucket Payload) → length (matches fingerprint b) ≤ length b
  unfolding matches
  length-matches fingerprint [] = omega arith
  length-matches fingerprint (r ∷ b) = ground (arith, length-matches fingerprint b)

  set-append :
      (xs ys : List Payload) (y v : Payload)
      → set (xs ++ y ∷ ys) (length xs) v ≡ (xs ++ v ∷ []) ++ ys
  set-append [] ys y v = refl
  set-append (x ∷ xs) ys y v = ap (λ t. x ∷ t) (set-append xs ys y v)

  count-collect_step :
      (fingerprint limit offset : ℕ) (x : Record Payload) (b : Bucket Payload)
      (r : Collected Payload)
      → (collect_step fingerprint limit offset x r).count + length (matches fingerprint b)
        ≡ r.count + length (matches fingerprint (x ∷ b))
  unfolding collect_step matches
  count-collect_step fingerprint limit offset x b r = ground arith

  -- The count does not depend on the output array.
  count-collect_from :
      (fingerprint limit offset : ℕ) (b : Bucket Payload) (r : Collected Payload)
      → (collect_from fingerprint limit offset b r).count ≡ r.count + length (matches fingerprint b)
  unfolding collect_from
  count-collect_from fingerprint limit offset [] r = unfold matches in omega arith
  count-collect_from fingerprint limit offset (x ∷ b) r =
      count-collect_from fingerprint limit offset b (collect_step fingerprint limit offset x r)
      ∙ count-collect_step fingerprint limit offset x b r

  collect_step-miss :
      (fingerprint limit offset : ℕ) (x : Record Payload) (r : Collected Payload)
      → (x.fingerprint == fingerprint) ≡ false
      → collect_step fingerprint limit offset x r ≡ r
  unfolding collect_step
  collect_step-miss fingerprint limit offset x r miss = rw miss

  collect_step-hit :
      (fingerprint limit offset count : ℕ) (x : Record Payload) (xs ys : List Payload) (y : Payload)
      → (x.fingerprint == fingerprint) ≡ true
      → length xs ≡ offset + count
      → offset + count < limit
      → collect_step fingerprint limit offset x
          (record { count = count; output = some (xs ++ y ∷ ys) })
        ≡ record { count = count + 1; output = some ((xs ++ x.payload ∷ []) ++ ys) }
  unfolding collect_step
  collect_step-hit fingerprint limit offset count x xs ys y hit e below =
      rw (hit, lt→ltb (offset + count) limit below, ← e, set-append xs ys y x.payload)

  matches-hit :
      (fingerprint : ℕ) (x : Record Payload) (b : Bucket Payload)
      → (x.fingerprint == fingerprint) ≡ true
      → matches fingerprint (x ∷ b) ≡ x.payload ∷ matches fingerprint b
  unfolding matches
  matches-hit fingerprint x b hit = rw hit

  matches-miss :
      (fingerprint : ℕ) (x : Record Payload) (b : Bucket Payload)
      → (x.fingerprint == fingerprint) ≡ false
      → matches fingerprint (x ∷ b) ≡ matches fingerprint b
  unfolding matches
  matches-miss fingerprint x b miss = rw miss

  -- An array with room receives every match behind what was written before.
  output-collect_from :
      (fingerprint limit offset count : ℕ) (b : Bucket Payload) (xs ys : List Payload)
      → length xs ≡ offset + count
      → limit ≡ length xs + length ys
      → length (matches fingerprint b) ≤ length ys
      → (collect_from fingerprint limit offset b
          (record { count = count; output = some (xs ++ ys) })).output
        ≡ some ((xs ++ matches fingerprint b) ++ drop (length (matches fingerprint b)) ys)
  unfolding collect_from
  output-collect_from fingerprint limit offset count [] xs ys e full room =
      unfold matches in rw append-nil
  output-collect_from fingerprint limit offset count (x ∷ b) xs ys e full room =
      elim (Bool-cases (x.fingerprint == fingerprint)) [
        | inr miss ↦
            ap (λ r. (collect_from fingerprint limit offset b r).output)
              (collect_step-miss fingerprint limit offset x _ miss)
            ∙ rw (matches-miss fingerprint x b miss) (
                output-collect_from fingerprint limit offset count b xs ys e full
                  (rw (matches-miss fingerprint x b miss) at room))
        | inl hit ↦ hit_case ys full (rw (matches-hit fingerprint x b hit) at room) hit (λ zs.
            output-collect_from fingerprint limit offset (count + 1) b (xs ++ x.payload ∷ []) zs)
      ]
    where
      hit_case :
          (ys : List Payload)
          → limit ≡ length xs + length ys
          → suc (length (matches fingerprint b)) ≤ length ys
          → (x.fingerprint == fingerprint) ≡ true
          → ((zs : List Payload)
              → length (xs ++ x.payload ∷ []) ≡ offset + (count + 1)
              → limit ≡ length (xs ++ x.payload ∷ []) + length zs
              → length (matches fingerprint b) ≤ length zs
              → (collect_from fingerprint limit offset b (record {
                count = count + 1;
                output = some ((xs ++ x.payload ∷ []) ++ zs);
              })).output
                ≡ some (
                    ((xs ++ x.payload ∷ []) ++ matches fingerprint b)
                    ++ drop (length (matches fingerprint b)) zs))
          → (collect_from fingerprint limit offset b (
              collect_step fingerprint limit offset x
                (record { count = count; output = some (xs ++ ys) }))).output
            ≡ some (
                (xs ++ matches fingerprint (x ∷ b))
                ++ drop (length (matches fingerprint (x ∷ b))) ys)
      hit_case [] full room hit ih = absurd (omega arith)
      hit_case (y ∷ ys) full room hit ih =
          let longer : length (xs ++ x.payload ∷ []) ≡ length xs + 1 =
            omega (arith, length-append xs (x.payload ∷ [])) in
          rw
            (
              collect_step-hit fingerprint limit offset count x xs ys y hit e (omega arith),
              matches-hit fingerprint x b hit,
            )
            (ih ys (omega arith) (omega arith) (omega arith)
              ∙ ap (λ t. some (t ++ drop (length (matches fingerprint b)) ys))
                  (append_assoc xs (x.payload ∷ []) (matches fingerprint b)))

take-append : {A : Type 0} (n : ℕ) (xs ys : List A) → n ≡ length xs → take n (xs ++ ys) ≡ xs
take-append zero [] ys e = refl
take-append zero (x ∷ xs) ys e = absurd (omega arith)
take-append (suc n) [] ys e = absurd (omega arith)
take-append (suc n) (x ∷ xs) ys e = ap (λ t. x ∷ t) (take-append n xs ys (omega arith))

module _ (c : Setting) where
  open c use {Payload, empty_payload, fingerprint_bits}

  -- The payloads that a query under this metadata is to find.
  unfoldable pub found : Filter c → KeyMetadata → List Payload
  found s m =
      if not (m.second_bucket == m.first_bucket)
      then matches m.fingerprint (read c s.store m.first_bucket)
        ++ matches m.fingerprint (read c s.store m.second_bucket)
      else matches m.fingerprint (read c s.store m.first_bucket)

  found-le :
      (s : Filter c) (m : KeyMetadata) (p : ℕ)
      → length (matches m.fingerprint (read c s.store p)) ≤ 4
  found-le s m p = omega (
    arith,
    length-matches m.fingerprint (read c s.store p),
    length-read_bucket fingerprint_bits empty_payload s.store p,
  )

  module _ (s : Filter c) (m : KeyMetadata) (limit : ℕ) where
    abbrev first_found : List Payload
    first_found = matches m.fingerprint (read c s.store m.first_bucket)

    abbrev second_found : List Payload
    second_found = matches m.fingerprint (read c s.store m.second_bucket)

    count-collect_matches :
        (position : ℕ) (output : Option (List Payload)) (offset : ℕ)
        → (collect_matches c s position m.fingerprint output limit offset).count
          ≡ length (matches m.fingerprint (read c s.store position))
    unfolding collect_matches
    count-collect_matches position output offset =
        count-collect_from m.fingerprint limit offset (read c s.store position) _ ∙ omega arith

    output-collect_matches :
        (position : ℕ) (xs ys : List Payload)
        → limit ≡ length xs + length ys
        → length (matches m.fingerprint (read c s.store position)) ≤ length ys
        → (collect_matches c s position m.fingerprint (some (xs ++ ys)) limit (length xs)).output
          ≡ some (
              (xs ++ matches m.fingerprint (read c s.store position))
              ++ drop (length (matches m.fingerprint (read c s.store position))) ys)
    unfolding collect_matches
    output-collect_matches position xs ys full room =
        output-collect_from m.fingerprint limit (length xs) 0 (read c s.store position) xs ys
          (omega arith) full room

    -- The number of matches is counted whatever the output array.
    query_buckets-count :
        (output : Option (List Payload))
        → (query_buckets c s m output limit).count ≡ length (found s m)
    unfolding query_buckets found
    query_buckets-count output = elim (Bool-cases (m.second_bucket == m.first_bucket)) [
      | inl same ↦ rw same (count-collect_matches m.first_bucket output 0)
      | inr ne ↦
          rw
            (
              ne,
              count-collect_matches m.first_bucket output 0,
              count-collect_matches m.second_bucket _ _,
            )
            (sym (length-append first_found second_found))
    ]

    query_buckets-output :
        (array : List Payload)
        → length array ≡ limit
        → 2 * slots_per_bucket ≤ limit
        → (rest : List Payload) × ((query_buckets c s m (some array) limit).output
            ≡ some (found s m ++ rest))
    unfolding query_buckets found
    query_buckets-output array full room =
        let le = found-le s m in
        let out =
          output-collect_matches m.first_bucket [] array (omega arith)
            (omega (arith, le m.first_bucket)) in
        elim (Bool-cases (m.second_bucket == m.first_bucket)) [
          | inl same ↦ (drop (length first_found) array, rw same out)
          | inr ne ↦ (
            drop (length second_found) (drop (length first_found) array),
            rw (ne, out, count-collect_matches m.first_bucket (some array) 0)
                (output-collect_matches m.second_bucket first_found
                  (drop (length first_found) array)
                  (omega (arith, length-drop (length first_found) array, le m.first_bucket))
                  (omega (
                    arith,
                    length-drop (length first_found) array,
                    le m.first_bucket,
                    le m.second_bucket,
                  ))),
          )
        ]

  -- For a token whose metadata are computed, the overload of `QueryAll` that returns a vector gives
  -- all payloads under the token's fingerprint in the first candidate bucket, in slot order, and
  -- then, if the second bucket is another one, those of the second.
  pub query_all-found :
      (s : Filter c) (token : ℕ) (m : KeyMetadata)
      → metadata c s token ≡ ok m
      → query_all c s token ≡ ok (found s m)
  unfolding query_all query_into first_matches
  query_all-found s token m e =
      let (rest, out) =
        query_buckets-output s m (2 * slots_per_bucket)
          (replicate (2 * slots_per_bucket) empty_payload) refl (omega arith) in
      rw (e, out)
        (ap ok (take-append _ (found s m) rest (query_buckets-count s m (2 * slots_per_bucket) _)))

  -- For a token whose metadata are computed, `Contains` returns whether the list of payloads that
  -- the candidate buckets hold under the token's fingerprint is not empty.
  pub contains-found :
      (s : Filter c) (token : ℕ) (m : KeyMetadata)
      → metadata c s token ≡ ok m
      → contains c s token ≡ ok (not (length (found s m) == 0))
  unfolding contains query_into
  contains-found s token m e = rw (e, query_buckets-count s m 0 none)

  -- A query finds at most the eight records of two buckets.
  pub length-found : (s : Filter c) (m : KeyMetadata) → length (found s m) ≤ 2 * slots_per_bucket
  unfolding found
  length-found s m = ground (
    arith,
    found-le s m m.first_bucket,
    found-le s m m.second_bucket,
    length-append (matches m.fingerprint (read c s.store m.first_bucket))
        (matches m.fingerprint (read c s.store m.second_bucket)),
  )
