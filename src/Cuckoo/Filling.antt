-- ===== src/Cuckoo/Filling.antt =====
-- What `FillEmpty` does in the `CuckooTable` of benchmarks/lse_protocol_benchmark.cpp.
use vlse.Base.{
  ℕ, zero, suc, ◌+◌, ◌≤◌, ◌<◌, ◌≡◌, ◌≢◌, refl, sym, ap, ◌∙◌, arith, inl, inr, Bool, true, false,
  to_nat, ◌==◌, ==_refl, ne→==, Bool-cases, List, [], ◌∷◌, length, length-set, get_or, set,
  get_or-set, Result, ok, ◌>>=◌, >>=-eq-ok, ℕ_discrete, subst,
}
use vlse.Cuckoo.Insertion.{Found, Found-Holds, Holds-Found}
use vlse.Cuckoo.Positions.{IsShaped, Holds}
use vlse.Cuckoo.{Hashing, CuckooTable, position, fill_from, fill_empty}

-- The flags that are set.
unfoldable pub count_taken : List Bool → ℕ
count_taken [] = 0
count_taken (b ∷ bs) = to_nat b + count_taken bs

count_taken-set :
    (flags : List Bool) (i : ℕ)
    → i < length flags
    → get_or flags i false ≡ false
    → count_taken (set flags i true) ≡ suc (count_taken flags)
unfolding count_taken
count_taken-set [] i below free = absurd (omega arith)
count_taken-set (b ∷ flags) zero below free = omega (arith, ap to_nat free)
count_taken-set (b ∷ flags) (suc i) below free =
    omega (arith, count_taken-set flags i (omega arith) free)

count_taken-all :
    (flags : List Bool)
    → ((i : ℕ) → i < length flags → get_or flags i false ≡ true)
    → count_taken flags ≡ length flags
unfolding count_taken
count_taken-all [] taken = refl
count_taken-all (b ∷ flags) taken = omega (
  arith,
  ap to_nat (taken 0 (omega arith)),
  count_taken-all flags (λ i below. taken (suc i) (omega arith)),
)

module _ (h : Hashing) {State : Type 0} (generator : State → Result (List ℕ × State)) where
  -- What the rounds from index `i` on make of the table.
  record IsFilledFrom (n i : ℕ) (table table' : CuckooTable h) (count : ℕ) : Type 0 where
    shaped : IsShaped h n table'
    keeps : (t : List ℕ) → Holds h n table t → Holds h n table' t
    old : (p : ℕ) → get_or table.occupied p false ≡ true → get_or table'.occupied p false ≡ true
    new : (p : ℕ) → i ≤ p → p < n → get_or table'.occupied p false ≡ true
    counted : count_taken table.occupied + count ≡ count_taken table'.occupied

  abbrev put : CuckooTable h → ℕ → List ℕ → CuckooTable h
  put table i token = record table {
    bins = set table.bins i token;
    occupied = set table.occupied i true;
  }

  put-Holds :
      (n i : ℕ) (table : CuckooTable h) (token t : List ℕ)
      → IsShaped h n table
      → i < n
      → get_or table.occupied i false ≡ false
      → Holds h n table t
      → Holds h n (put table i token) t
  put-Holds n i table token t v below free held =
      let q : ℕ = position h n t held.hash in
      let apart : i ≢ q =
        λ e. absurd (let no = ap (λ p. get_or table.occupied p false) e ∙ held.taken in cc) in
      record {
        hash = held.hash;
        below = held.below;
        taken =
            get_or-set table.occupied i q true false (omega (arith, below, v.flags))
            ∙ rw (ne→== i q apart) held.taken;
        there =
            get_or-set table.bins i q token [] (omega (arith, below, v.bins))
            ∙ rw (ne→== i q apart) held.there;
      }

  put-old :
      (i p : ℕ) (table : CuckooTable h)
      → i < length table.occupied
      → get_or table.occupied p false ≡ true
      → get_or (set table.occupied i true) p false ≡ true
  put-old i p table below taken =
      get_or-set table.occupied i p true false below
      ∙ elim (Bool-cases (i == p)) [ inl same ↦ rw same refl | inr other ↦ rw other taken ]

  fill_from-IsFilledFrom :
      (left i n : ℕ) (table : CuckooTable h) (state : State) (r : ℕ × (CuckooTable h × State))
      → IsShaped h n table
      → i + left ≡ n
      → fill_from h generator left i table state ≡ ok r
      → IsFilledFrom n i table r.1.0 r.0
  unfolding fill_from
  fill_from-IsFilledFrom zero i n table state r v end run =
      let same : (0, (table, state)) ≡ r = cc in
      subst (λ (r : ℕ × (CuckooTable h × State)). IsFilledFrom n i table r.1.0 r.0) same
        (record {
          shaped = v;
          keeps = λ t held. held;
          old = λ p taken. taken;
          new = λ p low high. absurd (omega (arith, low, high, end));
          counted = omega arith;
        })
  fill_from-IsFilledFrom (suc left) i n table state r v end run =
      elim (Bool-cases (get_or table.occupied i false)) [
        | inl taken ↦
            let later =
              fill_from-IsFilledFrom left (suc i) n table state r v (omega (arith, end))
                (rw taken at run) in
            record {
              shaped = later.shaped;
              keeps = later.keeps;
              old = later.old;
              new = λ p low high. elim (ℕ_discrete i p) [
                | yes here ↦
                    later.old p (ap (λ q. get_or table.occupied q false) (sym here) ∙ taken)
                | no apart ↦ later.new p (omega (arith, low, apart)) high
              ];
              counted = later.counted;
            }
        | inr free ↦ filled free (rw free at run) (λ table' state' rest v' next.
            fill_from-IsFilledFrom left (suc i) n table' state' rest v' (omega (arith, end)) next)
      ]
    where
      filled :
          get_or table.occupied i false ≡ false
          → (generator state >>= λ drawn.
              fill_from h generator left (suc i) (put table i drawn.0) drawn.1 >>= λ rest.
              ok (suc rest.0, rest.1))
            ≡ ok r
          → ((table' : CuckooTable h) (state' : State) (rest : ℕ × (CuckooTable h × State))
              → IsShaped h n table'
              → fill_from h generator left (suc i) table' state' ≡ ok rest
              → IsFilledFrom n (suc i) table' rest.1.0 rest.0)
          → IsFilledFrom n i table r.1.0 r.0
      filled free run' onward =
          let (drawn, first, more) = >>=-eq-ok {From = List ℕ × State} (generator state) _ run' in
          let (rest, next, made) =
            >>=-eq-ok {From = ℕ × (CuckooTable h × State)}
              (fill_from h generator left (suc i) (put table i drawn.0) drawn.1) _ more in
          let same : (suc rest.0, rest.1) ≡ r = cc in
          let below : i < n = omega (arith, end) in
          let flagged : i < length table.occupied = omega (arith, below, v.flags) in
          let here : get_or (set table.occupied i true) i false ≡ true =
            get_or-set table.occupied i i true false flagged ∙ rw (==_refl i) refl in
          let later =
            onward (put table i drawn.0) drawn.1 rest
              (record {
                some_bins = v.some_bins;
                bins = length-set table.bins i drawn.0 ∙ v.bins;
                flags = length-set table.occupied i true ∙ v.flags;
              })
              next in
          subst (λ (r : ℕ × (CuckooTable h × State)). IsFilledFrom n i table r.1.0 r.0) same
            (record {
              shaped = later.shaped;
              keeps = λ t held. later.keeps t (put-Holds n i table drawn.0 t v below free held);
              old = λ p taken. later.old p (put-old i p table flagged taken);
              new = λ p low high. elim (ℕ_discrete i p) [
                | yes at ↦
                    later.old p
                      (ap (λ q. get_or (set table.occupied i true) q false) (sym at) ∙ here)
                | no apart ↦ later.new p (omega (arith, low, apart)) high
              ];
              counted = omega (arith, later.counted, count_taken-set table.occupied i flagged free);
            })

  -- When filling a well-shaped cuckoo table ends normally, the table is well-shaped with as many
  -- bins, every token that was found before is found, the flags that were set and the dummies are
  -- as many as the bins, and afterwards every flag is set.
  pub fill_empty-Found :
      (n : ℕ) (table : CuckooTable h) (state : State) (r : ℕ × (CuckooTable h × State))
      → IsShaped h n table
      → fill_empty h generator table state ≡ ok r
      → IsShaped h n r.1.0
        × ((t : List ℕ) → Found h table t → Found h r.1.0 t)
        × (count_taken table.occupied + r.0 ≡ n)
        × (count_taken r.1.0.occupied ≡ n)
  unfolding fill_empty
  fill_empty-Found n table state r v run =
      let w =
        fill_from-IsFilledFrom (length table.bins) 0 n table state r v (omega (arith, v.bins))
          run in
      let all : count_taken r.1.0.occupied ≡ n =
        count_taken-all r.1.0.occupied
          (λ i below. w.new i (omega arith) (omega (arith, below, w.shaped.flags)))
        ∙ w.shaped.flags in
      (
        w.shaped,
        λ t found. Holds-Found h n r.1.0 t w.shaped (w.keeps t (Found-Holds h n table t v found)),
        omega (arith, w.counted, all),
        all,
      )

module _ {State : Type 0} (h : Hashing) (generator : State → Result (List ℕ × State))
    (kept : State → Type 0)
    (keeps : (s : State) (drawn : List ℕ × State)
      → generator s ≡ ok drawn
      → kept s
      → kept drawn.1) where
  fill_from-keeps :
      (left i : ℕ) (table : CuckooTable h) (state : State) (r : ℕ × (CuckooTable h × State))
      → fill_from h generator left i table state ≡ ok r
      → kept state
      → kept r.1.1
  unfolding fill_from
  fill_from-keeps zero i table state r run start =
      let same : (0, (table, state)) ≡ r = cc in
      subst (λ (r : ℕ × (CuckooTable h × State)). kept r.1.1) same start
  fill_from-keeps (suc left) i table state r run start =
      elim (Bool-cases (get_or table.occupied i false)) [
        | inl taken ↦ fill_from-keeps left (suc i) table state r (rw taken at run) start
        | inr free ↦
            let (drawn, first, more) =
              >>=-eq-ok {From = List ℕ × State} (generator state)
                (λ drawn.
                  fill_from h generator left (suc i) (put h generator table i drawn.0) drawn.1
                  >>= λ rest. ok (suc rest.0, rest.1))
                (rw free at run) in
            let (rest, next, made) =
              >>=-eq-ok {From = ℕ × (CuckooTable h × State)}
                (fill_from h generator left (suc i) (put h generator table i drawn.0) drawn.1) _
                more in
            let same : (suc rest.0, rest.1) ≡ r = cc in
            subst (λ (r : ℕ × (CuckooTable h × State)). kept r.1.1) same
              (fill_from-keeps left (suc i) (put h generator table i drawn.0) drawn.1 rest next
                (keeps state drawn first start))
      ]

  -- What every call of the generator keeps, the filling keeps.
  pub fill_empty-keeps :
      (table : CuckooTable h) (state : State) (r : ℕ × (CuckooTable h × State))
      → fill_empty h generator table state ≡ ok r
      → kept state
      → kept r.1.1
  unfolding fill_empty
  fill_empty-keeps table state r run start =
      fill_from-keeps (length table.bins) 0 table state r run start
