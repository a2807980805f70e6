-- ===== src/Tests/Events.antt =====
-- Runs of src/kernel/time/EventManager.cpp with two events that wait.
use ow_os.Common.{ℕ, ◌+◌, ◌*◌, ◌≡◌, refl, false, [], ◌∷◌, some, none, arith, ok}
use ow_os.Events.{reduce_by, Event, Manager, Timer, global, stopped, schedule_on}
use ow_os.Events.Elapsed.{due, reduce_by-due}
use ow_os.Events.Times.{times, insert_time, schedule_on-times, schedule_on-stopped}

abbrev timer : Timer
timer = record { id = 1; timer_type = global; time_quantum_in_ns = 10; maximum_interval = 100 }

abbrev event : ℕ → ℕ → Event
event callback nanoseconds = record {
  callback = callback;
  nanoseconds = nanoseconds;
  core_local = false;
  used_timer = none;
}

abbrev first : Event
first = record { callback = 7; nanoseconds = 50; core_local = false; used_timer = some timer }

abbrev waiting : Manager
waiting = record {
  available_timers = timer ∷ [];
  event_queue = first ∷ event 8 20 ∷ [];
  calls = [];
}

schedule_on-times_example :
    (m' : Manager) × (schedule_on 0 (event 9 60) waiting ≡ ok m')
    × (times 0 m'.event_queue ≡ insert_time 9 60 (times 0 waiting.event_queue))
    × (m'.calls ≡ [])
schedule_on-times_example =
    schedule_on-times 0 (event 9 60) first (event 8 20 ∷ []) waiting refl (omega arith)

schedule_on-stopped_example :
    (m' : Manager) × (schedule_on 30 (event 9 40) waiting ≡ ok m') × (m'.calls ≡ stopped timer ∷ [])
schedule_on-stopped_example =
    schedule_on-stopped 30 (event 9 40) first (event 8 20 ∷ []) timer waiting refl refl
      (omega arith) (omega arith)

reduce_by-due_example :
    due (reduce_by 20 waiting).1.event_queue 1 + 2 * 20 ≡ due waiting.event_queue 1
reduce_by-due_example =
    reduce_by-due 20 1 waiting ((omega arith, omega arith), ((omega arith, omega arith), tt))
      (omega arith)
