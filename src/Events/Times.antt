-- ===== src/Events/Times.antt =====
-- When the events of src/kernel/time/EventManager.cpp are due.
use ow_os.Common.{
  ℕ, ◌+◌, ◌-◌, ◌≤◌, ◌<◌, ◌≡◌, refl, sym, ap, ◌∙◌, Bool-cases, inl, inr, true, false, List, [], ◌∷◌,
  leb, if◌then◌else◌, arith, some, ok,
}
use ow_os.Events.{
  Event, Manager, Timer, stopped, sub64, insert_event, update_queue, schedule_on, schedule_first,
}

-- The callbacks and the times at which they are due, from a time on.
unfoldable pub times : ℕ → List Event → List (ℕ × ℕ)
times base [] = []
times base (event ∷ queue) =
    (event.callback, base + event.nanoseconds) ∷ times (base + event.nanoseconds) queue

-- A callback among others in the order of their times, before those of the same time.
unfoldable pub insert_time : ℕ → ℕ → List (ℕ × ℕ) → List (ℕ × ℕ)
insert_time callback time [] = (callback, time) ∷ []
insert_time callback time (next ∷ due) =
    if leb time next.1 then (callback, time) ∷ next ∷ due else next ∷ insert_time callback time due

insert_event-times :
    (base : ℕ) (event : Event) (queue : List Event)
    → times base (insert_event event queue)
      ≡ insert_time event.callback (base + event.nanoseconds) (times base queue)
unfolding times insert_event insert_time
insert_event-times base event [] = refl
insert_event-times base event (next ∷ queue) =
    elim (Bool-cases (leb event.nanoseconds next.nanoseconds)) [
      | inl e ↦
          let due : leb (base + event.nanoseconds) (base + next.nanoseconds) ≡ true =
            ground arith in
          let back : base + event.nanoseconds + (next.nanoseconds - event.nanoseconds)
              ≡ base + next.nanoseconds =
            ground arith in
          rw (e, due)
            (ap
              (λ (t : ℕ).
                (event.callback, base + event.nanoseconds) ∷ (next.callback, t) ∷ times t queue)
              back)
      | inr e ↦
          let due : leb (base + event.nanoseconds) (base + next.nanoseconds) ≡ false =
            ground arith in
          let ahead : base + next.nanoseconds + (event.nanoseconds - next.nanoseconds)
              ≡ base + event.nanoseconds =
            ground arith in
          rw (e, due)
            (ap (◌∷◌ (next.callback, base + next.nanoseconds)) (
              insert_event-times (base + next.nanoseconds)
                (record event { nanoseconds = event.nanoseconds - next.nanoseconds }) queue
              ∙ ap (λ (t : ℕ). insert_time event.callback t (times (base + next.nanoseconds) queue))
                  ahead))
    ]

-- An event that is due after the first of the queue is put in the order of the times, before those
-- that are due at the same time; the times of the others stay as they are, and no timer is called.
pub schedule_on-times :
    (elapsed : ℕ) (event first : Event) (queue : List Event) (m : Manager)
    → m.event_queue ≡ first ∷ queue
    → first.nanoseconds < event.nanoseconds
    → (m' : Manager) × (schedule_on elapsed event m ≡ ok m')
      × (times 0 m'.event_queue
          ≡ insert_time event.callback event.nanoseconds (times 0 m.event_queue))
      × (m'.calls ≡ m.calls)
unfolding schedule_on
schedule_on-times elapsed event first queue m e later =
    let behind : leb event.nanoseconds first.nanoseconds ≡ false = ground arith in
    let placed = insert_event-times 0 event (first ∷ queue) in
    (
      record m { event_queue = insert_event event (first ∷ queue) },
      rw (e, behind) refl,
      placed
          ∙ ap (λ (t : ℕ). insert_time event.callback t (times 0 (first ∷ queue))) (omega arith)
          ∙ ap (λ q. insert_time event.callback event.nanoseconds (times 0 q)) (sym e),
      refl,
    )

-- An event that was to come first, before one that has a timer, but is due after it when the time
-- that has elapsed is taken off: the last that a timer is told is to stop, and none is started
-- again.
pub schedule_on-stopped :
    (elapsed : ℕ) (event first : Event) (queue : List Event) (timer : Timer) (m : Manager)
    → m.event_queue ≡ first ∷ queue
    → first.used_timer ≡ some timer
    → event.nanoseconds ≤ first.nanoseconds
    → sub64 first.nanoseconds elapsed < event.nanoseconds
    → (m' : Manager) × (schedule_on elapsed event m ≡ ok m') × (m'.calls ≡ stopped timer ∷ m.calls)
unfolding schedule_on schedule_first
schedule_on-stopped elapsed event first queue timer m e t le later =
    let before : leb event.nanoseconds first.nanoseconds ≡ true = ground arith in
    let behind : leb event.nanoseconds (sub64 first.nanoseconds elapsed) ≡ false = ground arith in
    let now = record first { nanoseconds = sub64 first.nanoseconds elapsed } in
    (
      record m {
        event_queue = insert_event event (now ∷ update_queue elapsed queue);
        calls = stopped timer ∷ m.calls;
      },
      rw (e, before, t, behind) refl,
      refl,
    )
