-- ===== src/Filter/Fill/Retrieval.antt =====
-- `FillEmptySlots` and `QueryAll` of paired_vlse/include/paired_vacuum_filter.h together.
use vlse.Base.{ℕ, ◌≤◌, ◌<◌, ◌≡◌, ap, ◌∙◌, arith, Bool, Returns, ok}
use vlse.Filter.Answers.{count_if, answers, answers-IsMovable, total-answers}
use vlse.Filter.Fill.Completed.{fill_empty_slots-IsPadded}
use vlse.Filter.Fill.{Generators, fill_empty_slots}
use vlse.Filter.Invariant.{IsFilter}
use vlse.Filter.Metadata.{metadata-IsMetadata, metadata_congr}
use vlse.Filter.Query.Laws.{found, query_all-found}
use vlse.Filter.Query.{query_all}
use vlse.Filter.State.Alternate.{alternate-lt}
use vlse.Filter.Total.{total}
use vlse.Filter.State.{Layout, Setting, KeyMetadata, Filter, metadata}

-- When filling the empty slots of a filter that satisfies the invariant ends normally, every token
-- whose metadata are computed finds afterwards, counted by any test on payloads, at least as many
-- payloads as before.
pub query_all-fill_empty_slots :
    (c : Setting) (g : Generators c.Payload) (s : Filter c) (state : g.State) (done : ℕ × g.State)
    (token : ℕ) (m : KeyMetadata) (pick : c.Payload → Bool)
    → IsFilter c s
    → metadata c s token ≡ ok m
    → (fill_empty_slots c g s state).1 ≡ ok done
    → Returns (query_all c s token) λ before.
      Returns
        (query_all c (fill_empty_slots c g s state).0 token)
        λ after. count_if pick before ≤ count_if pick after
query_all-fill_empty_slots c g s state done token m pick v known e =
    let s' : Filter c = (fill_empty_slots c g s state).0 in
    let w = fill_empty_slots-IsPadded c g s state done v e in
    let placed = metadata-IsMetadata c s token v.laid v.sized known in
    let second : m.second_bucket < s.layout.bucket_count =
      rw placed.paired (alternate-lt s.layout m.first_bucket m.fingerprint v.laid placed.first) in
    let known' : metadata c s' token ≡ ok m =
      metadata_congr c s' s token w.same_layout w.same_seed ∙ known in
    (
      found c s m,
      query_all-found c s token m known,
      (
        found c s' m,
        query_all-found c s' token m known',
        omega (
          arith,
          w.grown (answers m pick) (answers-IsMovable c s.layout m pick placed).rejects,
          total-answers c pick m s placed.first second,
          total-answers c pick m s' (rw w.same_layout placed.first) (rw w.same_layout second),
          ap (λ (l : Layout). total c l.bucket_count (answers m pick) s'.store) w.same_layout,
        ),
      ),
    )
