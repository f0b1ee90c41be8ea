-- ===== src/Filter/Query.antt =====
-- `CollectMatches`, both overloads of `QueryAll`, `Contains`, `FingerprintForToken` and
-- `CandidateBuckets` of paired_vlse/include/paired_vacuum_filter.h. An output array is a list of its
-- capacity, and `none` is the null pointer.
pub mod Laws
use vlse.Base.{
  ℕ, ◌+◌, ◌*◌, Bool, not, ◌==◌, ltb, if◌then◌else◌, List, [], ◌∷◌, set, take, replicate, Option,
  none, some, Result, ok, ◌>>=◌,
}
use vlse.Filter.Bucket.{Record, Bucket, slots_per_bucket}
use vlse.Filter.State.{Setting, KeyMetadata, Filter, metadata, read}

-- The running count of `CollectMatches`, and the output array.
pub record Collected (Payload : Type 0) : Type 0 where
  pub count : ℕ
  pub output : Option (List Payload)

-- `output[at] = payload`, guarded by the null test and the capacity.
unfoldable pub store_match :
    {Payload : Type 0} → Option (List Payload) → ℕ → ℕ → Payload → Option (List Payload)
store_match none output_capacity at payload = none
store_match (some array) output_capacity at payload =
    if ltb at output_capacity then some (set array at payload) else some array

-- The body of the loop of `CollectMatches`.
unfoldable pub collect_step :
    {Payload : Type 0} → ℕ → ℕ → ℕ → Record Payload → Collected Payload → Collected Payload
unfolding store_match
collect_step fingerprint output_capacity output_offset entry r =
    if entry.fingerprint == fingerprint
    then record {
      count = r.count + 1;
      output = store_match r.output output_capacity (output_offset + r.count) entry.payload;
    }
    else r

-- The loop over the records left.
unfoldable pub collect_from :
    {Payload : Type 0} → ℕ → ℕ → ℕ → Bucket Payload → Collected Payload → Collected Payload
collect_from fingerprint output_capacity output_offset [] r = r
collect_from fingerprint output_capacity output_offset (entry ∷ bucket) r =
    collect_from fingerprint output_capacity output_offset bucket
      (collect_step fingerprint output_capacity output_offset entry r)

module _ (c : Setting) where
  open c use {Payload, empty_payload}

  unfoldable pub collect_matches :
      Filter c → ℕ → ℕ → Option (List Payload) → ℕ → ℕ → Collected Payload
  collect_matches s position fingerprint output output_capacity output_offset =
      collect_from fingerprint output_capacity output_offset (read c s.store position)
        (record { count = 0; output = output })

  unfoldable pub query_buckets :
      Filter c → KeyMetadata → Option (List Payload) → ℕ → Collected Payload
  query_buckets s m output output_capacity =
      let first = collect_matches s m.first_bucket m.fingerprint output output_capacity 0 in
      let second =
        collect_matches s m.second_bucket m.fingerprint first.output output_capacity first.count in
      if not (m.second_bucket == m.first_bucket)
      then record { count = first.count + second.count; output = second.output }
      else first

  unfoldable pub query_into : Filter c → ℕ → Option (List Payload) → ℕ → Result (Collected Payload)
  query_into s token output output_capacity = do
    m ← metadata c s token
    ok (query_buckets s m output output_capacity)

  -- `std::vector(matches.begin(), matches.begin() + count)`.
  unfoldable pub first_matches : Collected Payload → List Payload
  first_matches r = elim r.output [ none ↦ [] | some array ↦ take r.count array ]

  unfoldable pub query_all : Filter c → ℕ → Result (List Payload)
  query_all s token = do
    r ←
        query_into s token (some (replicate (2 * slots_per_bucket) empty_payload))
          (2 * slots_per_bucket)
    ok (first_matches r)

  unfoldable pub contains : Filter c → ℕ → Result Bool
  contains s token = do r ← query_into s token none 0; ok (not (r.count == 0))

  unfoldable pub fingerprint_for_token : Filter c → ℕ → Result ℕ
  fingerprint_for_token s token = do m ← metadata c s token; ok m.fingerprint

  unfoldable pub candidate_buckets : Filter c → ℕ → Result (ℕ × ℕ)
  candidate_buckets s token = do m ← metadata c s token; ok (m.first_bucket, m.second_bucket)
