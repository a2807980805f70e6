-- ===== src/Events/Elapsed.antt =====
-- What `reduce_by` of src/kernel/time/EventManager.cpp does to the times at which events are due.
use ow_os.Common.{ℕ, zero, suc, ◌+◌, ◌*◌, ◌^◌, ◌≤◌, ◌<◌, ◌≡◌, List, [], ◌∷◌, length, All, arith}
use ow_os.Events.{Event, Manager, update_queue, reduce_by}

-- When the event of a place in the queue is due.
unfoldable pub due : List Event → ℕ → ℕ
due [] place = 0
due (event ∷ queue) zero = event.nanoseconds
due (event ∷ queue) (suc place) = event.nanoseconds + due queue place

abbrev pub IsLonger : ℕ → Event → Type 0
IsLonger nanoseconds event = (nanoseconds ≤ event.nanoseconds) × (event.nanoseconds < 2 ^ 64)

update_queue-due :
    (nanoseconds place : ℕ) (queue : List Event)
    → All (IsLonger nanoseconds) queue
    → place < length queue
    → due (update_queue nanoseconds queue) place + suc place * nanoseconds ≡ due queue place
unfolding update_queue due
update_queue-due n place [] all h = absurd (omega arith)
update_queue-due n zero (event ∷ queue) all h = omega (arith, all.0.0, all.0.1)
update_queue-due n (suc place) (event ∷ queue) all h =
    omega (arith, all.0.0, all.0.1, update_queue-due n place queue all.1 (omega arith))

-- When a timer has run for less than every event of the queue waits after the one before it, each event
-- comes forward by that time for its own wait and again for every wait before it: the second
-- event comes forward by twice the time, and so on.
pub reduce_by-due :
    (nanoseconds place : ℕ) (m : Manager)
    → All (IsLonger nanoseconds) m.event_queue
    → place < length m.event_queue
    → due (reduce_by nanoseconds m).1.event_queue place + suc place * nanoseconds
      ≡ due m.event_queue place
unfolding reduce_by
reduce_by-due nanoseconds place m all h = update_queue-due nanoseconds place m.event_queue all h
