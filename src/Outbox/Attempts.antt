-- ===== src/Outbox/Attempts.antt =====
-- The attempts of an event: what the claim finds and what a step does to each row.
use pstu_final.Base.{
  update_where-none, subst, ℕ, ◌+◌, ◌-◌, ◌≤◌, ◌<◌, Bool, true, false, Bool-cases, Option-cases,
  ◌&&◌, ◌||◌, not, some, List, [], ◌∷◌, ◌≡◌, ap, sym, ◌∙◌, inl, inr, arith, any, All, find_where,
  select_where, update_where, any-update_where, any-of-found, find_where-update_where_other,
  is_some, ltb, ◌==◌, ==_iff, ==_refl, if◌then◌else◌,
}
use pstu_final.Store.Rows.{OutboxEvent}
use pstu_final.Outbox.Queue.{oldest, next_due, is_due}
use pstu_final.Outbox.Processor.{max_attempts}

abbrev pub has_id : ℕ → OutboxEvent → Bool
has_id id r = r.id == id

-- The primary key: no two rows share an id.
abbrev pub IsKeyed : List OutboxEvent → Type 0
IsKeyed [] = Unit
IsKeyed (row ∷ rows) = (any (has_id row.id) rows ≡ false) × IsKeyed rows

-- Processed, or out of attempts.
abbrev pub is_final : OutboxEvent → Bool
is_final row = is_some row.processed_at || not (ltb row.attempt_count max_attempts)

apart :
    (rows : List OutboxEvent) (a b : ℕ)
    → any (has_id a) rows ≡ true
    → any (has_id b) rows ≡ false
    → (b == a) ≡ false
apart rows a b there missing = elim (Bool-cases (b == a)) [
  | inr e ↦ e
  | inl e ↦ let same = ap (λ (k : ℕ). any (has_id k) rows) ((==_iff b a).0 e) in cc
]

deeper :
    (r row : OutboxEvent) (rows : List OutboxEvent)
    → any (has_id r.id) rows ≡ false
    → find_where (has_id row.id) rows ≡ some row
    → find_where (has_id row.id) (r ∷ rows) ≡ some row
deeper r row rows fresh found =
    let there = any-of-found (has_id row.id) (has_id row.id) rows row found (==_refl row.id) in
    rw (apart rows row.id r.id there fresh) found

first :
    (r row : OutboxEvent) (rows : List OutboxEvent)
    → row ≡ r
    → find_where (has_id row.id) (r ∷ rows) ≡ some row
first r row rows e = rw e (ground arith)

-- The row that a claim takes meets its condition, and is the row of its id.
picks :
    (test : OutboxEvent → Bool) (rows : List OutboxEvent) (row : OutboxEvent)
    → oldest (select_where test rows) ≡ some row
    → IsKeyed rows
    → (test row ≡ true) × (find_where (has_id row.id) rows ≡ some row)
unfolding oldest
picks test [] row h keyed = ground arith
picks test (r ∷ rows) row h keyed = elim (Bool-cases (test r)) [
  | inr skipped ↦
      let (meets, found) = picks test rows row (ground arith) keyed.1 in
      (meets, deeper r row rows keyed.0 found)
  | inl taken ↦ elim (Option-cases (oldest (select_where test rows))) [
    | inl alone ↦ let same : row ≡ r = ground arith in (rw same taken, first r row rows same)
    | inr (best, e) ↦
        let (meets, found) = picks test rows best e keyed.1 in
        elim (Bool-cases (ltb best.occurred_at r.occurred_at)) [
          | inl older ↦
              let same : row ≡ best = ground arith in
              subst
                (λ (x : OutboxEvent).
                  (test x ≡ true) × (find_where (has_id x.id) (r ∷ rows) ≡ some x))
                (sym same) (meets, deeper r best rows keyed.0 found)
          | inr newer ↦ let same : row ≡ r = ground arith in (rw same taken, first r row rows same)
        ]
  ]
]

pub next_due-found :
    (locked : ℕ → Bool) (now : ℕ) (rows : List OutboxEvent) (row : OutboxEvent)
    → IsKeyed rows
    → next_due locked max_attempts now rows ≡ some row
    → (is_final row ≡ false) × (find_where (has_id row.id) rows ≡ some row)
unfolding next_due
next_due-found locked now rows row keyed h =
    let (meets, found) =
      picks (λ (r : OutboxEvent). is_due max_attempts now r && not (locked r.id)) rows row h
        keyed in
    (ground arith, found)

pub update_where-IsKeyed :
    (hit : OutboxEvent → Bool) (change : OutboxEvent → OutboxEvent) (rows : List OutboxEvent)
    → ((r : OutboxEvent) → (change r).id ≡ r.id)
    → IsKeyed rows
    → IsKeyed (update_where hit change rows)
update_where-IsKeyed hit change [] keeps keyed = tt
update_where-IsKeyed hit change (r ∷ rows) keeps keyed =
    let same : (if hit r then change r else r).id ≡ r.id = let k = keeps r in ground arith in
    let fresh =
      any-update_where (has_id r.id) hit change rows (λ x. ap (λ (k : ℕ). k == r.id) (keeps x)) in
    (rw same (fresh ∙ keyed.0), update_where-IsKeyed hit change rows keeps keyed.1)

-- An UPDATE by the id of a row that is not final leaves the final ones.
pub update_where-final :
    (change : OutboxEvent → OutboxEvent) (rows : List OutboxEvent) (row kept : OutboxEvent)
    → ((r : OutboxEvent) → (change r).id ≡ r.id)
    → find_where (has_id row.id) rows ≡ some row
    → is_final row ≡ false
    → find_where (has_id kept.id) rows ≡ some kept
    → is_final kept ≡ true
    → find_where (has_id kept.id) (update_where (has_id row.id) change rows) ≡ some kept
update_where-final change rows row kept keeps found open_row stands final_row =
    find_where-update_where_other (has_id kept.id) (has_id row.id) change rows
      (λ x. ap (λ (k : ℕ). k == kept.id) (keeps x))
      (λ x meets. elim (Bool-cases (x.id == row.id)) [
        | inr e ↦ e
        | inl e ↦
            let same : kept.id ≡ row.id = ground arith in
            let both : some kept ≡ some row =
              sym stands ∙ ap (λ (k : ℕ). find_where (has_id k) rows) same ∙ found in
            let one : kept ≡ row = cc in let clash = ap is_final one in cc
      ])
    ∙ stands

pub update_where-one :
    (P : OutboxEvent → Type 0) (change : OutboxEvent → OutboxEvent) (rows : List OutboxEvent)
    (k : ℕ) (row : OutboxEvent)
    → IsKeyed rows
    → find_where (has_id k) rows ≡ some row
    → P (change row)
    → All P rows
    → All P (update_where (has_id k) change rows)
update_where-one P change [] k row keyed found holds all = tt
update_where-one P change (r ∷ rows) k row keyed found holds all = elim (Bool-cases (r.id == k)) [
  | inl e ↦
      let same : row ≡ r = ground arith in
      let rest : any (has_id k) rows ≡ false =
        ap (λ (j : ℕ). any (has_id j) rows) (sym ((==_iff r.id k).0 e)) ∙ keyed.0 in
      rw (e, update_where-none (has_id k) change rows rest)
        (subst (λ (x : OutboxEvent). P (change x)) same holds, all.1)
  | inr e ↦ rw e (all.0, update_where-one P change rows k row keyed.1 (ground arith) holds all.1)
]

-- The attempts that are left.
abbrev pub work_of : OutboxEvent → ℕ
work_of row = if is_some row.processed_at then 0 else max_attempts - row.attempt_count

abbrev pub work : List OutboxEvent → ℕ
work [] = 0
work (row ∷ rows) = work_of row + work rows

work-update_where-le :
    (hit : OutboxEvent → Bool) (change : OutboxEvent → OutboxEvent) (rows : List OutboxEvent)
    → ((r : OutboxEvent) → work_of (change r) ≤ work_of r)
    → work (update_where hit change rows) ≤ work rows
work-update_where-le hit change [] less = omega arith
work-update_where-le hit change (r ∷ rows) less =
    let ih = work-update_where-le hit change rows less in
    let one = less r in
    elim (Bool-cases (hit r)) [ inl e ↦ rw e (omega arith) | inr e ↦ rw e (omega arith) ]

pub work-update_where-lt :
    (hit : OutboxEvent → Bool) (change : OutboxEvent → OutboxEvent) (rows : List OutboxEvent)
    (row : OutboxEvent)
    → ((r : OutboxEvent) → work_of (change r) ≤ work_of r)
    → find_where hit rows ≡ some row
    → work_of (change row) < work_of row
    → work (update_where hit change rows) < work rows
work-update_where-lt hit change [] row less found drops = ground arith
work-update_where-lt hit change (r ∷ rows) row less found drops = elim (Bool-cases (hit r)) [
  | inl e ↦
      let same : row ≡ r = ground arith in
      let strict : work_of (change r) < work_of r =
        subst (λ (x : OutboxEvent). work_of (change x) < work_of x) same drops in
      let rest = work-update_where-le hit change rows less in rw e (omega arith)
  | inr e ↦
      let rest = work-update_where-lt hit change rows row less (ground arith) drops in
      rw e (omega arith)
]
