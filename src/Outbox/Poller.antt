-- ===== src/Outbox/Poller.antt =====
-- The timer of the worker: apps/api/src/outbox/outbox.poller.ts, as a step relation.
use pstu_final.Base.{
  ℕ, ◌+◌, Bool, true, false, ◌||◌, Option, none, some, List, [], ◌∷◌, ◌≡◌, refl, any, select_where,
  not, ◌==◌, if◌then◌else◌, arith,
}

abbrev poll_interval_ms : ℕ
poll_interval_ms = 1_000

abbrev error_backoff_ms : ℕ
error_backoff_ms = 5_000

-- A timer that has been set and has neither fired nor been cleared.
pub record Timer : Type 0 where
  pub handle : ℕ
  pub delay_ms : ℕ

-- `timer` is the field, which still holds a handle after the timer has fired; `timers` and
-- `next_handle` are the runtime's.
pub record Poller : Type 0 where
  pub timer : Option ℕ
  pub running : Bool
  pub stopped : Bool
  pub timers : List Timer
  pub next_handle : ℕ

abbrev constructed : Poller
constructed = record {
  timer = none;
  running = false;
  stopped = false;
  timers = [];
  next_handle = 0;
}

unfoldable pub schedule_next : ℕ → Poller → Poller
schedule_next delay s = if s.stopped then s else record s {
  timer = some s.next_handle;
  timers = record { handle = s.next_handle; delay_ms = delay } ∷ s.timers;
  next_handle = s.next_handle + 1;
}

-- The runtime forgets a timer: it has fired, or `clearTimeout` was called.
abbrev forget : ℕ → List Timer → List Timer
forget handle = select_where (λ (t : Timer). not (t.handle == handle))

unfoldable pub on_module_init : Poller
unfolding schedule_next
on_module_init = schedule_next 0 constructed

abbrev clear_timer : Option ℕ → Poller → Poller
clear_timer none s = s
clear_timer (some handle) s = record s { timers = forget handle s.timers; timer = none }

unfoldable pub on_application_shutdown : Poller → Poller
on_application_shutdown s = clear_timer s.timer (record s { stopped = true })

-- `tick` up to its first wait, in the callback of a timer.
unfoldable pub tick_begins : ℕ → Poller → Poller
tick_begins handle s =
    let fired = record s { timers = forget handle s.timers } in
    if s.running || s.stopped then fired else record fired { running = true }

-- `tick` from the end of the drain on, which has returned or thrown.
unfoldable pub tick_ends : ℕ → Poller → Poller
unfolding schedule_next
tick_ends delay s = record (schedule_next delay s) { running = false }

pub data Step : Poller → Poller → Type 0 where
  fires :
      (s : Poller) (handle : ℕ)
      → any (λ (t : Timer). t.handle == handle) s.timers ≡ true
      → Step s (tick_begins handle s)
  drained : (s : Poller) → s.running ≡ true → Step s (tick_ends poll_interval_ms s)
  drain_threw : (s : Poller) → s.running ≡ true → Step s (tick_ends error_backoff_ms s)
  shuts_down : (s : Poller) → Step s (on_application_shutdown s)

pub data Reach : Poller → Type 0 where
  starts : Reach on_module_init
  goes_on : {s t : Poller} → Reach s → Step s t → Reach t

-- One timer is set, or a drain is running and no timer is set, or the worker has been stopped and no
-- timer is set, so that no drain will begin.
pub data IsSound : Poller → Type 0 where
  waiting :
      {s : Poller} (handle delay : ℕ)
      → s.timer ≡ some handle
      → s.running ≡ false
      → s.stopped ≡ false
      → s.timers ≡ record { handle = handle; delay_ms = delay } ∷ []
      → IsSound s
  draining : {s : Poller} → s.running ≡ true → s.stopped ≡ false → s.timers ≡ [] → IsSound s
  ended : {s : Poller} → s.stopped ≡ true → s.timers ≡ [] → IsSound s

begins :
    (s : Poller) (handle : ℕ)
    → any (λ (t : Timer). t.handle == handle) s.timers ≡ true
    → IsSound s
    → IsSound (tick_begins handle s)
unfolding tick_begins
begins s handle set (waiting h delay kept quiet live timers) =
    draining (ground arith) (ground arith) (ground arith)
begins s handle set (draining busy live timers) = ground arith
begins s handle set (ended stopped timers) = ground arith

ends : (s : Poller) (delay : ℕ) → s.running ≡ true → IsSound s → IsSound (tick_ends delay s)
unfolding tick_ends
ends s delay busy (waiting h d kept quiet live timers) = ground arith
ends s delay busy (draining b live timers) =
    waiting s.next_handle delay (ground arith) refl (ground arith) (ground arith)
ends s delay busy (ended stopped timers) = ended (ground arith) (ground arith)

stops : (s : Poller) → IsSound s → IsSound (on_application_shutdown s)
unfolding on_application_shutdown
stops s (waiting h delay kept quiet live timers) = ended (ground arith) (ground arith)
stops s (draining busy live timers) = ended (ground arith) (ground arith)
stops s (ended stopped timers) = ended (ground arith) (ground arith)

Step-IsSound : {s t : Poller} → Step s t → IsSound s → IsSound t
Step-IsSound (fires s handle set) sound = begins s handle set sound
Step-IsSound (drained s busy) sound = ends s poll_interval_ms busy sound
Step-IsSound (drain_threw s busy) sound = ends s error_backoff_ms busy sound
Step-IsSound (shuts_down s) sound = stops s sound

-- The worker neither stalls nor overlaps: in whatever order timers fire, drains end and a shutdown
-- comes, there is always one timer set, or one drain running and no timer, or the worker has been
-- stopped and no timer is set.
pub Reach-IsSound : {s : Poller} → Reach s → IsSound s
unfolding on_module_init
Reach-IsSound starts = waiting 0 0 refl refl refl refl
Reach-IsSound (goes_on reach step) = Step-IsSound step (Reach-IsSound reach)
