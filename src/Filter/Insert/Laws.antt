-- ===== src/Filter/Insert/Laws.antt =====
-- `Insert` as a whole: it never throws before padding, adds the record or changes nothing, and keeps
-- the invariant.
use vlse.Base.{
  ℕ, ◌+◌, ◌<◌, ◌≡◌, refl, sym, ap, ◌∙◌, arith, Bool, true, false, to_nat, Returns, ok, throw,
  logic_error, ◌>>=◌, u64, bit_and, Bool-cases, inl, inr, ◌⊎◌, ◌==◌, leb, if◌then◌else◌, ltb,
  ltb→lt, ==→eq, ne→==, subst,
}
use vlse.Filter.Bucket.{Record, occupied, place, slots_per_bucket}
use vlse.Filter.Bucket.Laws.{place-IsPlaced}
use vlse.Filter.Insert.Evictions.{IsChain, IsInserted, evict-IsInserted, evict_random-IsChain}
use vlse.Filter.Insert.{start_chain, insert_direct, insert_at, insert_unpadded, insert}
use vlse.Filter.Invariant.{
  IsFilter, occupied_anywhere, occupied-IsMovable, total-occupied-le, capacity-eq,
}
use vlse.Filter.Metadata.{IsMetadata, metadata-IsMetadata}
use vlse.Filter.State.Alternate.{IsLayout, alternate-lt}
use vlse.Filter.State.Journal.{IsBucket, IsTable, read-IsBucket, write-IsTable}
use vlse.Filter.State.{Setting, KeyMetadata, Filter, metadata, read, write, roll_back, capacity}
use vlse.Filter.Store.Fields.{IsSized}
use vlse.Filter.Total.{IsMovable, total, total-write, total-SameReads}

module _ (c : Setting) (s : Filter c) (v : IsFilter c s) where
  open c use {Payload, fingerprint_bits, draw}

  abbrev n : ℕ
  n = s.layout.bucket_count

  module _ (m : KeyMetadata) (placed : IsMetadata fingerprint_bits s.layout m)
      (payload : Payload) where
    abbrev incoming : Record Payload
    incoming = record { fingerprint = m.fingerprint; payload = payload }

    abbrev ResultIs : Bool × Filter c → Type 0
    ResultIs = IsInserted c s v.laid v.sized m.first_bucket incoming

    second-lt : m.second_bucket < n
    second-lt =
        rw placed.paired (alternate-lt s.layout m.first_bucket m.fingerprint v.laid placed.first)

    -- A record in either candidate bucket counts as one in the first.
    either_side :
        (p : ℕ)
        → (p ≡ m.first_bucket) ⊎ (p ≡ m.second_bucket)
        → (sees : ℕ → Record Payload → Bool) → IsMovable c s.layout sees
        → sees p incoming ≡ sees m.first_bucket incoming
    either_side p (inl e) sees movable = ap (λ q. sees q incoming) e
    either_side p (inr e) sees movable =
        ap (λ q. sees q incoming) (e ∙ placed.paired) ∙ movable.moves m.first_bucket incoming

    side_bucket :
        (side : Bool)
        → ((if side then m.second_bucket else m.first_bucket) ≡ m.first_bucket)
          ⊎ ((if side then m.second_bucket else m.first_bucket) ≡ m.second_bucket)
    side_bucket true = inr refl
    side_bucket false = inl refl

    candidate-lt : (p : ℕ) → (p ≡ m.first_bucket) ⊎ (p ≡ m.second_bucket) → p < n
    candidate-lt p (inl e) = rw e placed.first
    candidate-lt p (inr e) = rw e second-lt

    start_chain-IsChain :
        IsChain c s v.laid v.sized m.first_bucket incoming (start_chain c s m incoming)
    unfolding start_chain roll_back
    start_chain-IsChain =
        let side = side_bucket (bit_and (draw s.random_engine).0 1 == 0) in
        evict_random-IsChain c s v.laid v.sized m.first_bucket incoming _ (record {
          undoable = record { table = v.table; entries = tt; undoes = λ q below. refl };
          inside = candidate-lt _ side;
          small = placed.small;
          balance = λ sees movable.
              ap (λ b. total c n sees s.store + to_nat b) (either_side _ side sees movable);
        })

    -- The direct placement in a candidate bucket with an empty slot.
    place_at :
        (p : ℕ)
        → (p ≡ m.first_bucket) ⊎ (p ≡ m.second_bucket)
        → occupied (read c s.store p) < slots_per_bucket
        → Returns
            (do
              filled ← place incoming (read c s.store p)
              ok (
                true,
                record s {
                  store = write c s.store p filled;
                  filled_slots = u64 (s.filled_slots + 1);
                  statistics = record s.statistics {
                    successful_inserts = u64 (s.statistics.successful_inserts + 1);
                  };
                },
              ))
            ResultIs
    place_at p side room =
        let old = read-IsBucket c n v.sized s.store p v.table in
        let (filled, run, new) = place-IsPlaced incoming (read c s.store p) (rw old.full room) in
        let good : IsBucket c n filled = record {
          full = new.same_length ∙ old.full;
          small = new.below _ placed.small old.small;
        } in
        let within : p < n = candidate-lt p side in
        rw run (
          _,
          refl,
          record {
            table = write-IsTable c n v.sized s.store p filled v.table within good;
            grown = λ _ sees movable. omega (
              arith,
              total-write c n v.sized sees s.store p filled v.table within good,
              new.counts (sees p) (movable.rejects p),
              ap to_nat (either_side p side sees movable),
            );
            filled = λ _. refl;
            restored = λ e. cc;
            unfilled = λ e. cc;
            same_layout = refl;
            same_seed = refl;
            same_padding = refl;
          },
        )

    -- The emptier candidate bucket has room when one of them has.
    insert_direct-IsInserted :
        (occupied (read c s.store m.first_bucket) < slots_per_bucket)
          ⊎ (occupied (read c s.store m.second_bucket) < slots_per_bucket)
        → Returns
            (insert_direct c s m incoming
              (read c s.store m.first_bucket)
              (read c s.store m.second_bucket))
            ResultIs
    unfolding insert_direct
    insert_direct-IsInserted room =
        let a = occupied (read c s.store m.first_bucket) in
        let b = occupied (read c s.store m.second_bucket) in
        elim (Bool-cases (m.first_bucket == m.second_bucket)) [
          | inl same ↦
              let alike : b ≡ a = ap (λ p. occupied (read c s.store p)) (sym (==→eq _ _ same)) in
              rw same (place_at m.first_bucket (inl refl) (omega arith))
          | inr ne ↦ elim (Bool-cases (leb a b)) [
            | inl less ↦ rw (ne, less) (place_at m.first_bucket (inl refl) (ground arith))
            | inr more ↦ rw (ne, more) (place_at m.second_bucket (inr refl) (ground arith))
          ]
        ]

    second_read :
        (if m.second_bucket == m.first_bucket
          then read c s.store m.first_bucket
          else read c s.store m.second_bucket)
        ≡ read c s.store m.second_bucket
    second_read = elim (Bool-cases (m.second_bucket == m.first_bucket)) [
      | inl same ↦ rw same (ap (read c s.store) (sym (==→eq _ _ same)))
      | inr ne ↦ rw ne
    ]

    insert_at-IsInserted : Returns (insert_at c s m payload) ResultIs
    unfolding insert_at
    insert_at-IsInserted =
        let a = occupied (read c s.store m.first_bucket) in
        let b = occupied (read c s.store m.second_bucket) in
        rw second_read (elim (Bool-cases (ltb a slots_per_bucket)) [
          | inl room ↦ rw room (insert_direct-IsInserted (inl (ltb→lt _ _ room)))
          | inr full ↦ elim (Bool-cases (ltb b slots_per_bucket)) [
            | inl room ↦ rw (full, room) (insert_direct-IsInserted (inr (ltb→lt _ _ room)))
            | inr full' ↦
                rw (full, full')
                  (evict-IsInserted c s v.laid v.sized m.first_bucket incoming s.maximum_evictions 0
                    _ start_chain-IsChain)
          ]
        ])

    insert_unpadded-IsInserted :
        (token : ℕ)
        → metadata c s token ≡ ok m
        → Returns (insert_unpadded c s token payload) ResultIs
    unfolding insert_unpadded
    insert_unpadded-IsInserted token e = elim (Bool-cases (leb (capacity c s) s.filled_slots)) [
      | inl full ↦ rw full (
        _,
        refl,
        record {
          table = v.table;
          grown = λ e. cc;
          filled = λ e. cc;
          restored = λ _ q below. refl;
          unfilled = λ _. refl;
          same_layout = refl;
          same_seed = refl;
          same_padding = refl;
        },
      )
      | inr room ↦ rw (room, e) insert_at-IsInserted
    ]

    -- `Insert` before padding returns, in a state that either holds the record as well or reads as
    -- before.
    pub insert-IsInserted :
        (token : ℕ)
        → s.padded ≡ false
        → metadata c s token ≡ ok m
        → Returns (insert c s token payload) ResultIs
    unfolding insert
    insert-IsInserted token unpadded e =
        subst
          (λ b.
            Returns (if b then throw logic_error else insert_unpadded c s token payload) ResultIs)
          (sym unpadded) (insert_unpadded-IsInserted token e)

    -- A chain that found a slot keeps the invariant, and so does one that was undone.
    pub inserted-IsFilter : (r : Bool × Filter c) → ResultIs r → IsFilter c r.1
    inserted-IsFilter r i = record {
      laid = subst IsLayout (sym i.same_layout) v.laid;
      sized = subst (λ l. IsSized fingerprint_bits l.bucket_count) (sym i.same_layout) v.sized;
      table = subst (λ l. IsTable c l.bucket_count r.1.store) (sym i.same_layout) i.table;
      counted =
          subst (λ l. r.1.filled_slots ≡ total c l.bucket_count occupied_anywhere r.1.store)
            (sym i.same_layout) (recount (Bool-cases r.0));
    }
      where
        recount :
            (r.0 ≡ true) ⊎ (r.0 ≡ false) → r.1.filled_slots ≡ total c n occupied_anywhere r.1.store
        recount (inl done) =
            let counts : to_nat (occupied_anywhere m.first_bucket incoming) ≡ 1 =
              unfold occupied_anywhere in rw (ne→== m.fingerprint 0 placed.nonzero) in
            omega (
              arith,
              i.filled done,
              i.grown done occupied_anywhere (occupied-IsMovable c s.layout),
              counts,
              v.counted,
              total-occupied-le c n r.1.store,
              capacity-eq c s v.sized,
            )
        recount (inr undone) =
            i.unfilled undone
            ∙ v.counted
            ∙ sym (
                total-SameReads c n v.sized occupied_anywhere r.1.store s.store (i.restored undone))

-- On a filter that satisfies the invariant and is not padded, for a token whose metadata are
-- computed, an insertion returns, and the filter after it satisfies the invariant, whether the
-- record found a slot or not: the buckets are sorted and well formed, and the count of filled slots
-- is the number of occupied ones.
pub insert-IsFilter :
    (c : Setting) (s : Filter c) (token : ℕ) (payload : c.Payload) (m : KeyMetadata)
    → IsFilter c s
    → s.padded ≡ false
    → metadata c s token ≡ ok m
    → Returns (insert c s token payload) (λ r. IsFilter c r.1)
insert-IsFilter c s token payload m v unpadded e =
    let placed = metadata-IsMetadata c s token v.laid v.sized e in
    let (r, run, i) = insert-IsInserted c s v m placed payload token unpadded e in
    (r, run, inserted-IsFilter c s v m placed payload r i)
