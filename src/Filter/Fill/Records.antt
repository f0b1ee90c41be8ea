-- ===== src/Filter/Fill/Records.antt =====
-- Lemmas on the loops of `FillEmptySlots` of paired_vlse/include/paired_vacuum_filter.h over the
-- records of one bucket.
use native.Mathlib.Nat.{one-le-pow, mod-lt}
use vlse.Base.{
  ℕ, zero, suc, ◌+◌, ◌^◌, ◌≤◌, ◌<◌, ◌≡◌, refl, ap, arith, bit_and, Bool, true, false, not, ◌||◌,
  ◌==◌, if◌then◌else◌, [], ◌∷◌, length, Result, ok, ◌>>=◌, >>=-eq-ok, inl, inr, Bool-cases, ◌⊎◌,
  subst,
}
use vlse.Bits.{bit_and-low_bits}
use vlse.Filter.Bucket.{Record, Bucket, is_occupied, occupied}
use vlse.Filter.Bucket.Laws.{AllBelow, RejectsEmpty, count}
use vlse.Filter.Fill.{Generators, draw_fingerprint, fill_record, Filling, fill_bucket}
use vlse.Filter.Metadata.{mask-eq}
use vlse.Filter.State.{Setting, fingerprint_mask}
use vlse.Filter.Store.Fields.{IsSized}

pick :
    {A : Type 0} (b : Bool) (x y : A) (again : Result A)
    → (if b then again else ok x) ≡ ok y
    → ((b ≡ false) × (x ≡ y)) ⊎ (again ≡ ok y)
pick false x y again e = inl (refl, cc)
pick true x y again e = inr e

module _ (c : Setting) (g : Generators c.Payload) (n : ℕ)
    (sized : IsSized c.fingerprint_bits n) where
  open c use {Payload, fingerprint_bits}
  open g use {State}

  masked-lt : (x : ℕ) → bit_and x (fingerprint_mask c) < 2 ^ fingerprint_bits
  masked-lt x =
      rw (mask-eq c n sized, bit_and-low_bits fingerprint_bits x)
        (mod-lt x (one-le-pow fingerprint_bits 2 (omega arith)))

  draw_fingerprint-InRange :
      (fuel : ℕ) (state : State) (drawn : ℕ × State)
      → draw_fingerprint c g fuel state ≡ ok drawn
      → (0 < drawn.0) × (drawn.0 < 2 ^ fingerprint_bits)
  unfolding draw_fingerprint
  draw_fingerprint-InRange zero state drawn e = absurd cc
  draw_fingerprint-InRange (suc fuel) state drawn e =
      let (d, run, rest) =
        >>=-eq-ok (g.fingerprint state)
          (λ drawn.
            if bit_and drawn.0 (fingerprint_mask c) == 0
              || not (g.allowed (bit_and drawn.0 (fingerprint_mask c)))
            then draw_fingerprint c g fuel drawn.1
            else ok (bit_and drawn.0 (fingerprint_mask c), drawn.1))
          e in
      let candidate : ℕ = bit_and d.0 (fingerprint_mask c) in
      elim (pick (candidate == 0 || not (g.allowed candidate)) (candidate, d.1) drawn _ rest) [
        | inl (accepted, same) ↦
            subst (λ (r : ℕ × State). (0 < r.0) × (r.0 < 2 ^ fingerprint_bits)) same
              (ground (arith, accepted), masked-lt d.0)
        | inr later ↦ draw_fingerprint-InRange fuel d.1 drawn later
      ]

  -- What a record of a bucket becomes: an occupied one stays, an empty one is given a fingerprint.
  record IsRefilled (entry filled : Record Payload) : Type 0 where
    nonzero : is_occupied filled ≡ true
    small : filled.fingerprint < 2 ^ fingerprint_bits
    kept : is_occupied entry ≡ true → entry ≡ filled

  fill_record-IsRefilled :
      (entry : Record Payload) (state : State) (filled : Record Payload × State)
      → entry.fingerprint < 2 ^ fingerprint_bits
      → fill_record c g entry state ≡ ok filled
      → IsRefilled entry filled.0
  unfolding fill_record
  fill_record-IsRefilled entry state filled small e = filled_by (is_occupied entry) refl e
    where
      made : ℕ × State → Payload × State → Result (Record Payload × State)
      made candidate payload =
          ok (record { fingerprint = candidate.0; payload = payload.0 }, payload.1)

      filled_by :
          (b : Bool)
          → is_occupied entry ≡ b
          → (if b
              then ok (entry, state)
              else (draw_fingerprint c g g.rejections state >>= λ candidate.
                  (g.payload candidate.1 >>= made candidate)))
            ≡ ok filled
          → IsRefilled entry filled.0
      filled_by true taken h =
          let same : (entry, state) ≡ filled = cc in
          subst (λ (r : Record Payload × State). IsRefilled entry r.0) same
            (record { nonzero = taken; small = small; kept = λ _. refl })
      filled_by false free h =
          let (candidate, run, rest) =
            >>=-eq-ok (draw_fingerprint c g g.rejections state)
              (λ candidate. g.payload candidate.1 >>= made candidate) h in
          let (payload, drawn, built) = >>=-eq-ok (g.payload candidate.1) (made candidate) rest in
          let record_made : Record Payload = record {
            fingerprint = candidate.0;
            payload = payload.0;
          } in
          let same : (record_made, payload.1) ≡ filled = cc in
          let (positive, below) = draw_fingerprint-InRange g.rejections state candidate run in
          subst (λ (r : Record Payload × State). IsRefilled entry r.0) same
            (record { nonzero = ground (arith, positive); small = below; kept = λ taken. cc })

  -- What a bucket becomes: full, with the records that it held.
  pub record IsRefilling (bucket : Bucket Payload) (filling : Filling c g) : Type 0 where
    pub full : length filling.bucket ≡ length bucket
    pub small : AllBelow (2 ^ fingerprint_bits) filling.bucket
    pub taken : occupied filling.bucket ≡ length bucket
    pub generated : filling.generated + occupied bucket ≡ length bucket
    pub grown :
        (test : Record Payload → Bool)
        → RejectsEmpty test
        → count test bucket ≤ count test filling.bucket

  refill_cons :
      (entry filled : Record Payload) (state : State) (bucket : Bucket Payload) (rest : Filling c g)
      → IsRefilled entry filled
      → IsRefilling bucket rest
      → IsRefilling (entry ∷ bucket) (record {
        bucket = filled ∷ rest.bucket;
        state = rest.state;
        generated = (if is_occupied entry then 0 else 1) + rest.generated;
      })
  unfolding occupied count
  refill_cons entry filled state bucket rest v w = record {
    full = ap suc w.full;
    small = (v.small, w.small);
    taken = ground (arith, v.nonzero, w.taken);
    generated = ground (arith, w.generated);
    grown = λ test rejects. elim (Bool-cases (is_occupied entry)) [
      | inl there ↦ rw (← v.kept there) (omega (arith, w.grown test rejects))
      | inr empty ↦ ground (arith, w.grown test rejects, rejects entry)
    ];
  }

  pub fill_bucket-IsRefilling :
      (bucket : Bucket Payload) (state : State) (filling : Filling c g)
      → AllBelow (2 ^ fingerprint_bits) bucket
      → fill_bucket c g bucket state ≡ ok filling
      → IsRefilling bucket filling
  unfolding fill_bucket
  fill_bucket-IsRefilling [] state filling small e =
      let nothing : Filling c g = record { bucket = []; state = state; generated = 0 } in
      let same : nothing ≡ filling = cc in
      subst (IsRefilling []) same (
        unfold occupied count in
        record {
          full = refl;
          small = tt;
          taken = refl;
          generated = omega arith;
          grown = λ test rejects. omega arith;
        })
  fill_bucket-IsRefilling (entry ∷ bucket) state filling small e =
      let (filled, run, more) =
        >>=-eq-ok (fill_record c g entry state)
          (λ filled. fill_bucket c g bucket filled.1 >>= joined filled) e in
      let (rest, again, built) = >>=-eq-ok (fill_bucket c g bucket filled.1) (joined filled) more in
      let together : Filling c g = record {
        bucket = filled.0 ∷ rest.bucket;
        state = rest.state;
        generated = (if is_occupied entry then 0 else 1) + rest.generated;
      } in
      let same : together ≡ filling = cc in
      subst (IsRefilling (entry ∷ bucket)) same (
        refill_cons entry filled.0 filled.1 bucket rest
          (fill_record-IsRefilled entry state filled small.0 run)
          (fill_bucket-IsRefilling bucket filled.1 rest small.1 again))
    where
      joined : Record Payload × State → Filling c g → Result (Filling c g)
      joined filled rest = ok (record {
        bucket = filled.0 ∷ rest.bucket;
        state = rest.state;
        generated = (if is_occupied entry then 0 else 1) + rest.generated;
      })
