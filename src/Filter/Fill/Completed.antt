-- ===== src/Filter/Fill/Completed.antt =====
-- A filling of the empty slots that ends normally, in paired_vlse/include/paired_vacuum_filter.h.
use vlse.Base.{
  ℕ, ◌+◌, ◌≤◌, ◌≡◌, refl, ◌∙◌, arith, Bool, true, false, if◌then◌else◌, [], Result, ok, throw,
  logic_error, subst, u64,
}
use vlse.Filter.Bucket.{Record}
use vlse.Filter.Fill.{Generators, fill_buckets, end_fill, fill_empty_slots}
use vlse.Filter.Invariant.{IsFilter, capacity-eq}
use vlse.Filter.State.{Setting, Filter, Journaled, roll_back, capacity}
use vlse.Filter.Total.{total}
use vlse.Filter.Fill.Rounds.{IsFilled, fill_buckets-IsFilled, total-occupied_full}

module _ (c : Setting) (g : Generators c.Payload) where
  open c use {Payload}
  open g use {State}

  -- The filter with every slot taken, and what it held before.
  pub record IsPadded (s s' : Filter c) (generated : ℕ) : Type 0 where
    pub valid : IsFilter c s'
    pub padded : s'.padded ≡ true
    pub full : s'.filled_slots ≡ capacity c s
    pub counted : s.filled_slots + generated ≡ capacity c s
    pub grown :
        (sees : ℕ → Record Payload → Bool)
        → ((p : ℕ) (r : Record Payload) → r.fingerprint ≡ 0 → sees p r ≡ false)
        → total c s.layout.bucket_count sees s.store ≤ total c s.layout.bucket_count sees s'.store
    pub same_layout : s'.layout ≡ s.layout
    pub same_seed : s'.hash_seed ≡ s.hash_seed

  -- When filling the empty slots of a filter that satisfies the invariant ends normally, the filter
  -- after it satisfies the invariant and is padded, its count of filled slots is the capacity,
  -- which is the count before plus the number of records that the call returns, its layout and hash
  -- seed are those of before, and for every test on bucket indices and records that fails on empty
  -- slots, at least as many slots pass it as before.
  pub fill_empty_slots-IsPadded :
      (s : Filter c) (state : State) (done : ℕ × State)
      → IsFilter c s
      → (fill_empty_slots c g s state).1 ≡ ok done
      → IsPadded s (fill_empty_slots c g s state).0 done.0
  unfolding fill_empty_slots end_fill
  fill_empty_slots-IsPadded s state done v e = padded_or s.padded e
    where
      n : ℕ
      n = s.layout.bucket_count

      start : Journaled c
      start = record { store = s.store; journal = [] }

      filled :
          (generated : State × ℕ)
          → (fill_buckets c g n 0 start state 0).1 ≡ ok generated
          → IsFilled c g n v.sized s.store n (fill_buckets c g n 0 start state 0).0 generated.1
      filled generated run =
          fill_buckets-IsFilled c g n v.sized s.store n 0 start state 0 generated (omega arith)
            (capacity-eq c s v.sized).1
            (record {
              undoable = record {
                table = v.table;
                entries = tt;
                undoes = λ q below. (unfold roll_back in refl);
              };
              full = λ q below. absurd (omega arith);
              grown = λ sees rejects. omega arith;
              counted = omega arith;
            })
            run

      ended :
          (r : Journaled c × Result (State × ℕ))
          → ((generated : State × ℕ)
              → r.1 ≡ ok generated
              → IsFilled c g n v.sized s.store n r.0 generated.1)
          → (end_fill c g s r).1 ≡ ok done
          → IsPadded s (end_fill c g s r).0 done.0
      ended (j, throw error) u h = absurd cc
      ended (j, ok (state', generated)) u h =
          let w = u (state', generated) refl in
          let same : (generated, state') ≡ done = cc in
          let (size, fits) = capacity-eq c s v.sized in
          let everything = total-occupied_full c n j.store w.full in
          let whole : u64 (s.filled_slots + generated) ≡ s.filled_slots + generated =
            omega (arith, w.counted, v.counted, everything) in
          subst (λ (d : ℕ × State). IsPadded s (end_fill c g s (j, ok (state', generated))).0 d.0)
            same
            (record {
              valid = record {
                laid = v.laid;
                sized = v.sized;
                table = w.undoable.table;
                counted = whole ∙ omega (arith, w.counted, v.counted);
              };
              padded = refl;
              full = whole ∙ omega (arith, w.counted, v.counted, everything, size);
              counted = omega (arith, w.counted, v.counted, everything, size);
              grown = w.grown;
              same_layout = refl;
              same_seed = refl;
            })

      padded_or :
          (b : Bool)
          → (if b
              then (s, throw logic_error)
              else end_fill c g s (fill_buckets c g n 0 start state 0)).1
            ≡ ok done
          → IsPadded s
              (if b
                then (s, throw logic_error)
                else end_fill c g s (fill_buckets c g n 0 start state 0)).0
              done.0
      padded_or true h = absurd cc
      padded_or false h = ended _ filled h
