-- ===== src/Outbox/Drained.antt =====
-- What a drain does to the events of the outbox, and that it ends.
use pstu_final.Base.{
  ◌≢◌, ℕ, zero, suc, ◌+◌, ◌≤◌, ◌<◌, true, false, Bool-cases, some, List, ◌≡◌, ◌⊎◌, refl, ap, sym,
  subst, ◌∙◌, inl, inr, arith, All, find_where, update_where,
}
use pstu_final.Store.Rows.{OutboxEvent}
use pstu_final.Store.Tx.{Db}
use pstu_final.Platform.{Platform, Reading}
use pstu_final.Notifications.Consumer.{Language}
use pstu_final.Outbox.Queue.{processed_now, failed_now}
use pstu_final.Outbox.Processor.{
  Step, Outcome, processed, failed, idle, max_attempts, backoff_seconds, process_next, drain_from,
  drain,
}
use pstu_final.Outbox.Steps.{Stepped, idles, fails, processes, process_next-Stepped}
use pstu_final.Outbox.Attempts.{
  has_id, IsKeyed, is_final, next_due-found, update_where-IsKeyed, update_where-final,
  update_where-one, work, work_of, work-update_where-lt,
}

abbrev pub IsBounded : List OutboxEvent → Type 0
IsBounded = All (λ row. row.attempt_count ≤ max_attempts)

-- One row, which was not final, has gone on by one attempt or has been marked.
record Moved (rows rows' : List OutboxEvent) : Type 0 where
  row : OutboxEvent
  change : OutboxEvent → OutboxEvent
  keeps : (r : OutboxEvent) → (change r).id ≡ r.id
  found : find_where (has_id row.id) rows ≡ some row
  open_row : is_final row ≡ false
  bounded : (change row).attempt_count ≤ max_attempts
  less : (r : OutboxEvent) → work_of (change r) ≤ work_of r
  drops : work_of (change row) < work_of row
  after : rows' ≡ update_where (has_id row.id) change rows

Moved-IsKeyed : (rows rows' : List OutboxEvent) → Moved rows rows' → IsKeyed rows → IsKeyed rows'
Moved-IsKeyed rows rows' m keyed =
    subst IsKeyed (sym m.after) (update_where-IsKeyed (has_id m.row.id) m.change rows m.keeps keyed)

Moved-IsBounded :
    (rows rows' : List OutboxEvent)
    → Moved rows rows'
    → IsKeyed rows
    → IsBounded rows
    → IsBounded rows'
Moved-IsBounded rows rows' m keyed all = subst IsBounded (sym m.after) (
    update_where-one (λ r. r.attempt_count ≤ max_attempts) m.change rows m.row.id m.row keyed
      m.found m.bounded all)

Moved-final :
    (rows rows' : List OutboxEvent) (kept : OutboxEvent)
    → Moved rows rows'
    → find_where (has_id kept.id) rows ≡ some kept
    → is_final kept ≡ true
    → find_where (has_id kept.id) rows' ≡ some kept
Moved-final rows rows' kept m stands final =
    ap (find_where (has_id kept.id)) m.after
    ∙ update_where-final m.change rows m.row kept m.keeps m.found m.open_row stands final

Moved-work : (rows rows' : List OutboxEvent) → Moved rows rows' → work rows' < work rows
Moved-work rows rows' m =
    subst (λ (xs : List OutboxEvent). work xs < work rows) (sym m.after)
      (work-update_where-lt (has_id m.row.id) m.change rows m.row m.less m.found m.drops)

module _ (p : Platform) (l : Language) (step : Step) where
  -- Where the counters could be written, every step but an idle one moves a row.
  Stepped-Moved :
      (s s' : Db) (o : Outcome)
      → IsKeyed s.outbox
      → Stepped p l step s s' o
      → ((s'.outbox ≡ s.outbox) × ((o ≡ idle) ⊎ (step.bookkeeping_fails ≡ true)))
        ⊎ Moved s.outbox s'.outbox
  Stepped-Moved s s' _ keyed (idles same) = inl (ground arith, inl refl)
  Stepped-Moved s s' _ keyed (fails row failure due after) =
      let (open_row, found) =
        next_due-found step.locked (step.env.clock Reading.outbox_claim) s.outbox row keyed due in
      elim (Bool-cases step.bookkeeping_fails) [
        | inl lost ↦ inl (ground arith, inr lost)
        | inr kept ↦ inr (record {
          row = row;
          change = failed_now step.env (step.message failure) (backoff_seconds row.attempt_count);
          keeps = λ r. refl;
          found = found;
          open_row = open_row;
          bounded = ground arith;
          less = λ r. ground arith;
          drops = ground arith;
          after = ground arith;
        })
      ]
  Stepped-Moved s s' _ keyed (processes row u t due locked handled after explains) =
      let (open_row, found) =
        next_due-found step.locked (step.env.clock Reading.outbox_claim) s.outbox row keyed due in
      inr (record {
        row = row;
        change = processed_now step.env;
        keeps = λ r. refl;
        found = found;
        open_row = open_row;
        bounded = ground arith;
        less = λ r. omega arith;
        drops = ground arith;
        after = ground arith;
      })

Outcome-cases : (o : Outcome) → (o ≡ idle) ⊎ ((o ≡ processed) ⊎ (o ≡ failed))
Outcome-cases processed = inr (inl refl)
Outcome-cases failed = inr (inr refl)
Outcome-cases idle = inl refl

pair : (x : Outcome × Db) (o : Outcome) → x.0 ≡ o → x ≡ (o, x.1)
pair (a, s) o e = ap (λ (b : Outcome). (b, s)) e

module _ (p : Platform) (l : Language) (steps : ℕ → Step) where
  -- One round of the loop.
  round :
      (left i count : ℕ) (s : Db)
      → (((process_next p l (steps i) s).0 ≡ idle)
          × ((drain_from p l steps (suc left) i count s).1 ≡ (process_next p l (steps i) s).1))
        ⊎ (((process_next p l (steps i) s).0 ≢ idle)
            × ((c : ℕ) × (drain_from p l steps (suc left) i count s
                  ≡ drain_from p l steps left (suc i) c (process_next p l (steps i) s).1)))
  unfolding drain_from
  round left i count s = elim (Outcome-cases (process_next p l (steps i) s).0) [
    | inl e ↦ inl (e, ground arith)
    | inr (inl e) ↦ inr (ground arith, (count + 1, ground arith))
    | inr (inr e) ↦ inr (ground arith, (count, ground arith))
  ]

  -- What every step keeps, a drain keeps.
  drain_from_keeps {κ} :
      (P : Db → Type κ) (keep : (i : ℕ) (s : Db) → P s → P (process_next p l (steps i) s).1)
      (left i count : ℕ) (s : Db)
      → P s
      → P (drain_from p l steps left i count s).1
  drain_from_keeps P keep zero i count s h = unfold drain_from in h
  drain_from_keeps P keep (suc left) i count s h = elim (round left i count s) [
    | inl (stopped, e) ↦ subst P (sym e) (keep i s h)
    | inr (went, (c, e)) ↦
        subst P (ap (λ (x : ℕ × Db). x.1) (sym e))
          (drain_from_keeps P keep left (suc i) c (process_next p l (steps i) s).1 (keep i s h))
  ]

  process_next-IsBounded :
      (i : ℕ) (s : Db)
      → IsKeyed s.outbox × IsBounded s.outbox
      → IsKeyed (process_next p l (steps i) s).1.outbox
        × IsBounded (process_next p l (steps i) s).1.outbox
  process_next-IsBounded i s h =
      elim (Stepped-Moved p l (steps i) s _ _ h.0 (process_next-Stepped p l (steps i) s)) [
        | inl (same, why) ↦ rw same h
        | inr m ↦ (Moved-IsKeyed _ _ m h.0, Moved-IsBounded _ _ m h.0 h.1)
      ]

  -- From an outbox whose ids are apart and in which no event has more than five attempts, a drain of
  -- any length, whatever fails in it, leaves one with ids apart and no event beyond five attempts.
  pub drain-IsBounded :
      (n : ℕ) (s : Db)
      → IsKeyed s.outbox
      → IsBounded s.outbox
      → IsKeyed (drain p l steps n s).1.outbox × IsBounded (drain p l steps n s).1.outbox
  unfolding drain
  drain-IsBounded n s keyed bounded =
      drain_from_keeps (λ s. IsKeyed s.outbox × IsBounded s.outbox) process_next-IsBounded n 0 0 s
        (keyed, bounded)

  keeps_final :
      (kept : OutboxEvent)
      → is_final kept ≡ true
      → (i : ℕ) (s : Db) → IsKeyed s.outbox × (find_where (has_id kept.id) s.outbox ≡ some kept)
      → IsKeyed (process_next p l (steps i) s).1.outbox
        × (find_where (has_id kept.id) (process_next p l (steps i) s).1.outbox ≡ some kept)
  keeps_final kept final i s h =
      elim (Stepped-Moved p l (steps i) s _ _ h.0 (process_next-Stepped p l (steps i) s)) [
        | inl (same, why) ↦ rw same h
        | inr m ↦ (Moved-IsKeyed _ _ m h.0, Moved-final _ _ kept m h.1 final)
      ]

  -- Where the ids of the outbox are apart, an event that has been processed, or has failed five
  -- times, stays as it is through a drain of any length: it is never claimed again.
  pub drain_final :
      (n : ℕ) (s : Db) (kept : OutboxEvent)
      → IsKeyed s.outbox
      → find_where (has_id kept.id) s.outbox ≡ some kept
      → is_final kept ≡ true
      → find_where (has_id kept.id) (drain p l steps n s).1.outbox ≡ some kept
  unfolding drain
  drain_final n s kept keyed stands final =
      (drain_from_keeps (λ s. IsKeyed s.outbox × (find_where (has_id kept.id) s.outbox ≡ some kept))
        (keeps_final kept final) n 0 0 s (keyed, stands)).1

  -- The database after so many steps, from the step of number `i` on.
  unfoldable pub stepped_by : ℕ → ℕ → Db → Db
  stepped_by zero i s = s
  stepped_by (suc k) i s = stepped_by k (suc i) (process_next p l (steps i) s).1

  -- None of these steps is idle.
  abbrev pub IsBusy : ℕ → ℕ → Db → Type 0
  IsBusy zero i s = Unit
  IsBusy (suc k) i s =
      ((process_next p l (steps i) s).0 ≢ idle) × IsBusy k (suc i) (process_next p l (steps i) s).1

  add_zero : (i : ℕ) → i + 0 ≡ i
  add_zero i = omega arith

  zero_add : (i : ℕ) → i ≡ 0 + i
  zero_add i = omega arith

  add_suc : (i k : ℕ) → i + suc k ≡ suc i + k
  add_suc i k = omega arith

  module _ (written : (i : ℕ) → (steps i).bookkeeping_fails ≡ false) where
    step-lt :
        (i : ℕ) (s : Db)
        → IsKeyed s.outbox
        → (process_next p l (steps i) s).0 ≢ idle
        → IsKeyed (process_next p l (steps i) s).1.outbox
          × (work (process_next p l (steps i) s).1.outbox < work s.outbox)
    step-lt i s keyed busy =
        elim (Stepped-Moved p l (steps i) s _ _ keyed (process_next-Stepped p l (steps i) s)) [
          | inl (same, inl quiet) ↦ absurd (busy quiet)
          | inl (same, inr lost) ↦ let kept = written i in cc
          | inr m ↦ (Moved-IsKeyed _ _ m keyed, Moved-work _ _ m)
        ]

    drain_from_ends :
        (left i count : ℕ) (s : Db)
        → IsKeyed s.outbox
        → work s.outbox < left
        → (k : ℕ) × (k ≤ work s.outbox)
          × IsBusy k i s
          × (process_next p l (steps (i + k)) (stepped_by k i s)
              ≡ (idle, (drain_from p l steps left i count s).1))
    unfolding stepped_by
    drain_from_ends zero i count s keyed enough = absurd (omega arith)
    drain_from_ends (suc left) i count s keyed enough = elim (round left i count s) [
      | inl (stopped, e) ↦ (
        0,
        omega arith,
        tt,
        ap (λ (k : ℕ). process_next p l (steps k) s) (add_zero i)
            ∙ pair (process_next p l (steps i) s) idle stopped
            ∙ ap (λ (t : Db). (idle, t)) (sym e),
      )
      | inr (went, (c, e)) ↦
          let (keyed', less) = step-lt i s keyed went in
          let next = (process_next p l (steps i) s).1 in
          let (k, near, busy, ended) = drain_from_ends left (suc i) c next keyed' (omega arith) in
          (
            suc k,
            omega arith,
            (went, busy),
            ap (λ (n : ℕ). process_next p l (steps n) (stepped_by k (suc i) next)) (add_suc i k)
                ∙ ended
                ∙ ap (λ (x : ℕ × Db). (idle, x.1)) (sym e),
          )
    ]

    -- Where the ids are apart and no step fails to write down a failed attempt, a drain whose batch
    -- is larger than the attempts that the unprocessed events have left is not cut off by its batch:
    -- some number of steps, no more than those attempts, are made one after the other, none of them
    -- idle, and the step after them is idle and leaves what the drain leaves.
    pub drain_ends :
        (n : ℕ) (s : Db)
        → IsKeyed s.outbox
        → work s.outbox < n
        → (k : ℕ) × (k ≤ work s.outbox)
          × IsBusy k 0 s
          × (process_next p l (steps k) (stepped_by k 0 s) ≡ (idle, (drain p l steps n s).1))
    unfolding drain
    drain_ends n s keyed enough =
        let (k, near, busy, ended) = drain_from_ends n 0 0 s keyed enough in
        (
          k,
          near,
          busy,
          ap (λ (m : ℕ). process_next p l (steps m) (stepped_by k 0 s)) (zero_add k) ∙ ended,
        )
