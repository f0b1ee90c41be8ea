-- ===== src/Demo/Passes.antt =====
-- How `main` of paired_vlse/demo.cpp ends, with any number of items in place of `kItems`.

use vlse.Base.{
  ℕ, ◌+◌, ◌*◌, ◌≤◌, ◌<◌, ◌≡◌, refl, ap, arith, false, List, length, length-map_range, ok, Returns,
  subst, ne→==,
}
use vlse.Demo.Queries.{IsSound, AllLoaded, insert_keywords-AllLoaded, query_keywords-AllLoaded}
use vlse.Demo.{
  Libraries, Index, Loaded, loaded, not_inserted, Report, passed, insertion_failed, query_failed,
  not_padded, index_setting, make_keywords, insert_keywords, query_and_pad, make_index, run_items,
}
use vlse.Filter.Invariant.{IsFilter, capacity-eq}
use vlse.Filter.Layout.Blank.{IsFresh, make_filter-IsFresh}
use vlse.Filter.Layout.{requested_buckets}
use vlse.Filter.State.{Layout, capacity}
use vlse.Oprf.{random_secret_key}
use vlse.Demo.Steps.{
  IsLive, IsDone, random_scalar_returns, insert_keywords-Returns, prepare_blind_pool-Returns,
  pad-passes,
}

-- A run passes with every slot of a table of enough buckets taken by a keyword or a dummy, or an
-- insertion failed.
unfoldable pub IsExpected : (l : Libraries) → ℕ → Report → Type 0
IsExpected l items (passed dummy_records) =
    (buckets : ℕ) × (requested_buckets l.double items (l.double.decimal 95 2) ≤ buckets)
    × (items + dummy_records ≡ buckets * 4)
IsExpected l items (insertion_failed i) = i < items
IsExpected l items (query_failed i) = ⊥
IsExpected l items not_padded = ⊥

module _ (l : Libraries) (sound : IsSound l) (items : ℕ) (live : IsLive l items) where
  open l use {group, cipher, sha256, entropy}

  -- `main` after the first loop, which ended with an index.
  query_and_pad-passes :
      (key : ℕ) (keywords : List (List ℕ)) (index : Index l) (pool : group.Pool)
      (state : entropy.State)
      → IsFilter (index_setting l) index
      → index.padded ≡ false
      → AllLoaded l sound key keywords 0 index
      → (dummy_records : ℕ) × (query_and_pad l key keywords pool state (loaded index)
          ≡ ok (passed dummy_records))
        × (index.filled_slots + dummy_records ≡ capacity (index_setting l) index)
  unfolding query_and_pad
  query_and_pad-passes key keywords index pool state v unpadded all =
      let (blinds, prepared, t) =
        prepare_blind_pool-Returns l sound items live (length keywords) pool in
      let asked =
        query_keywords-AllLoaded l sound key keywords blinds.0 0 index pool blinds.1 prepared all in
      let (dummy_records, run, filled) = pad-passes l sound items live index state v unpadded in
      (dummy_records, rw (prepared, asked) run, filled)

  module _ (some_items : 0 < items)
      (few : requested_buckets l.double items (l.double.decimal 95 2) < 10000) where
    abbrev IsNew : Index l → Type 0
    IsNew =
        IsFresh (index_setting l) l.double (omega arith) (omega arith)
          (requested_buckets l.double items (l.double.decimal 95 2))

    make_index-Returns : Returns (make_index l items) IsNew
    unfolding make_index
    make_index-Returns =
        make_filter-IsFresh (index_setting l) l.double (omega arith) (omega arith) items
          (l.double.decimal 95 2) 500 0x6a09e667f3bcc909 0xbb67ae8584caa73b
          (ne→== items 0 (λ e. absurd (omega (arith, e)))) live.above live.below few

    length-make_keywords : length (make_keywords items) ≡ items
    unfolding make_keywords
    length-make_keywords = length-map_range _ 0 items

    -- `main` after the first loop, from what the loop made of the new index.
    loaded-passes :
        (key : ℕ) (pool : group.Pool) (state : entropy.State) (index index' : Index l)
        → IsNew index
        → insert_keywords l key (make_keywords items) 0 index ≡ ok (loaded index')
        → (dummy_records : ℕ) × (query_and_pad l key
              (make_keywords items)
              pool
              state
              (loaded index')
            ≡ ok (passed dummy_records))
          × (items + dummy_records ≡ index.layout.bucket_count * 4)
    loaded-passes key pool state index index' fresh run =
        let (kept, counted, all) =
          insert_keywords-AllLoaded l sound key (make_keywords items) 0 index index' fresh.valid
            fresh.unpadded run in
        let (dummy_records, passes, filled) =
          query_and_pad-passes key (make_keywords items) index' pool state kept.valid kept.unpadded
            all in
        (
          dummy_records,
          passes,
          omega (
            arith,
            filled,
            counted,
            fresh.unfilled,
            length-make_keywords,
            ap (λ (layout : Layout). layout.bucket_count) kept.same_layout,
            (capacity-eq (index_setting l) index' kept.valid.sized).0,
          ),
        )

    -- If the cipher opens what it sealed and makes a context for every label, the modulus is above
    -- 3 and its predecessor is the cofactor times the subgroup order, powers modulo it, of numbers
    -- below it, stay below it, compose and, if the number is not 0, satisfy Fermat's little
    -- theorem, and inverses modulo the subgroup order are inverses, the modulus fits 384 bytes, the
    -- libraries give within the fuel a block that is a scalar from every pool, a candidate whose
    -- power by the cofactor is not 1 for every keyword and a fingerprint that is not zero from
    -- every state of the rehash, the cipher always seals, random bytes can always be drawn, a
    -- dummy's fingerprint is drawn at least once, and 0.95 lies between 0 and 1, and a positive
    -- number of items asks for fewer than 10000 buckets, then whenever the secret key is drawn, the
    -- index is made and the first loop inserts all keywords of so many items, the demo passes: no
    -- query fails, the padding is complete, the keywords and the dummy records together are as many
    -- as the slots of the made index, and it has at least the requested buckets.
    pub run_items-passes :
        (pool pool' : group.Pool) (state : entropy.State) (secret : ℕ) (index index' : Index l)
        → random_secret_key group pool ≡ ok (secret, pool')
        → make_index l items ≡ ok index
        → insert_keywords l secret (make_keywords items) 0 index ≡ ok (loaded index')
        → (dummy_records : ℕ) × (run_items l items pool state ≡ ok (passed dummy_records))
          × (items + dummy_records ≡ index.layout.bucket_count * 4)
          × (requested_buckets l.double items (l.double.decimal 95 2) ≤ index.layout.bucket_count)
    unfolding run_items
    run_items-passes pool pool' state secret index index' drawn made run =
        let (index'', made'', fresh'') = make_index-Returns in
        let same : index'' ≡ index = cc in
        let fresh : IsNew index = subst IsNew same fresh'' in
        let (dummy_records, passes, filled) =
          loaded-passes secret pool' state index index' fresh run in
        (dummy_records, rw (drawn, made, run) passes, filled, fresh.enough)

    -- If the cipher opens what it sealed and makes a context for every label, the modulus is above
    -- 3 and its predecessor is the cofactor times the subgroup order, powers modulo it, of numbers
    -- below it, stay below it, compose and, if the number is not 0, satisfy Fermat's little
    -- theorem, and inverses modulo the subgroup order are inverses, the modulus fits 384 bytes, the
    -- libraries give within the fuel a block that is a scalar from every pool, a candidate whose
    -- power by the cofactor is not 1 for every keyword and a fingerprint that is not zero from
    -- every state of the rehash, the cipher always seals, random bytes can always be drawn, a
    -- dummy's fingerprint is drawn at least once, and 0.95 lies between 0 and 1, and a positive
    -- number of items asks for fewer than 10000 buckets, then the demo with so many items ends:
    -- either an insertion of one of the keywords failed, or it passes, in a table of at least the
    -- requested buckets whose slots are as many as the keywords and the dummy records together; no
    -- query fails, and the padding is complete.
    pub run_items-Returns :
        (pool : group.Pool) (state : entropy.State)
        → Returns (run_items l items pool state) (IsExpected l items)
    unfolding run_items random_secret_key IsExpected query_and_pad IsDone
    run_items-Returns pool state =
        let (secret, drawn, t) = random_scalar_returns l sound items live pool in
        let (index, made, fresh) = make_index-Returns in
        let (inserted, run, done) =
          insert_keywords-Returns l sound items live secret.0 index fresh.valid fresh.unpadded in
        let (report, later, so) = reported secret.0 secret.1 index fresh inserted run done in
        (report, rw (drawn, made, run) later, so)
      where
        reported :
            (key : ℕ) (pool' : group.Pool) (index : Index l)
            → IsNew index
            → (inserted : Loaded l)
            → insert_keywords l key (make_keywords items) 0 index ≡ ok inserted
            → IsDone l sound items live (0 + length (make_keywords items)) inserted
            → Returns
                (query_and_pad l key (make_keywords items) pool' state inserted)
                (IsExpected l items)
        reported key pool' index fresh (not_inserted i) run below =
            (insertion_failed i, refl, omega (arith, below, length-make_keywords))
        reported key pool' index fresh (loaded index') run below =
            let (dummy_records, passes, filled) =
              loaded-passes key pool' state index index' fresh run in
            (passed dummy_records, passes, (index.layout.bucket_count, fresh.enough, filled))
