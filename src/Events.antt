-- ===== src/Events.antt =====
-- src/kernel/time/EventManager.cpp: the events that wait on a timer. Each waits for so long after the
-- one before it. A callback is a number. What a timer was told is kept, the latest first, and what
-- `stop()` gives is an argument.
pub mod Times
pub mod Elapsed
use ow_os.Common.{
  ℕ, zero, suc, ◌+◌, ◌-◌, ◌*◌, ◌/◌, ◌%◌, ◌^◌, Bool, true, false, not, ◌&&◌, ◌||◌, Option, some,
  none, List, [], ◌∷◌, ◌++◌, map, replicate, ltb, leb, ◌==◌, if◌then◌else◌, word, Result, ok, err,
  null_deref, assert_failed, assert, ◌>>=◌, ◌>>◌, or_fault,
}

-- The 64-bit operations.
abbrev pub sub64 : ℕ → ℕ → ℕ
sub64 a b = (a + 2 ^ 64 - b) % 2 ^ 64

abbrev pub mul64 : ℕ → ℕ → ℕ
mul64 a b = a * b % 2 ^ 64

pub data TimerType : Type 0 where
  global cpu : TimerType

-- What the code asks a timer, and which one it is.
pub record Timer : Type 0 where
  pub id : ℕ
  pub timer_type : TimerType
  pub time_quantum_in_ns : ℕ
  pub maximum_interval : ℕ

pub record Event : Type 0 where
  pub callback : ℕ
  pub nanoseconds : ℕ
  pub core_local : Bool
  pub used_timer : Option Timer

pub data TimerCall : Type 0 where
  started : Timer → ℕ → TimerCall
  stopped : Timer → TimerCall

pub record Manager : Type 0 where
  pub available_timers : List Timer
  pub event_queue : List Event
  pub calls : List TimerCall

unfoldable pub update_queue : ℕ → List Event → List Event
update_queue nanoseconds [] = []
update_queue nanoseconds (event ∷ queue) =
    record event { nanoseconds = sub64 event.nanoseconds nanoseconds }
    ∷ update_queue nanoseconds queue

abbrev pub is_cpu : TimerType → Bool
is_cpu cpu = true
is_cpu global = false

-- The timers that an event can wait on.
abbrev pub serves : Event → Timer → Bool
serves event timer =
    if event.core_local then is_cpu timer.timer_type else not (is_cpu timer.timer_type)

-- The timer that can wait for the event, or the best one and the time it can wait for.
pub data Choice : Type 0 where
  exact : Timer → ℕ → Choice
  longest : Option Timer → ℕ → Choice

-- The loop of `schedule_next_event`. A division by 0 gives 0.
unfoldable pub choose : Event → Option Timer → ℕ → List Timer → Choice
choose event best time [] = longest best time
choose event best time (timer ∷ timers) =
    let interval = event.nanoseconds / timer.time_quantum_in_ns in
    if not (serves event timer)
    then choose event best time timers
    else if leb interval timer.maximum_interval
    then exact timer interval
    else if ltb time timer.maximum_interval
    then choose event (some timer) (mul64 timer.maximum_interval timer.time_quantum_in_ns) timers
    else choose event best time timers

abbrev pub filler : Event → Timer → ℕ → Event
filler event timer time = record {
  callback = 0;
  nanoseconds = time;
  core_local = event.core_local;
  used_timer = some timer;
}

unfoldable pub schedule_next_event : Manager → Result Manager
schedule_next_event m = elim m.event_queue [
  | [] ↦ ok m
  | event ∷ queue ↦
      assert (ltb 0 event.nanoseconds) >> (elim (choose event none 0 m.available_timers) [
        | exact timer interval ↦ ok (record m {
          event_queue = record event { used_timer = some timer } ∷ queue;
          calls = started timer interval ∷ m.calls;
        })
        | longest none time ↦ err assert_failed
        | longest (some timer) time ↦
            let needed_events = event.nanoseconds / time % word in
            let left = event.nanoseconds - needed_events * time in
            ok (record m {
              event_queue =
                  replicate needed_events (filler event timer time)
                  ++ record event { nanoseconds = left } ∷ queue;
              calls = started timer timer.maximum_interval ∷ m.calls;
            })
      ])
]

-- The loop of `schedule_on`, and whether the event comes first.
unfoldable pub insert_event : Event → List Event → List Event
insert_event event [] = event ∷ []
insert_event event (next ∷ queue) =
    if leb event.nanoseconds next.nanoseconds
    then event ∷ record next { nanoseconds = next.nanoseconds - event.nanoseconds } ∷ queue
    else next
      ∷ insert_event (record event { nanoseconds = event.nanoseconds - next.nanoseconds }) queue

-- The event comes before all others, whose first is told how long its timer has run.
unfoldable pub schedule_first : ℕ → Event → Event → List Event → Manager → Result Manager
schedule_first elapsed event first queue m = do
  timer ← or_fault first.used_timer null_deref
  let stopped_timer = record m { calls = stopped timer ∷ m.calls }
  let now = record first { nanoseconds = sub64 first.nanoseconds elapsed }
  let placed = record stopped_timer {
    event_queue = insert_event event (now ∷ update_queue elapsed queue);
  }
  if leb event.nanoseconds now.nanoseconds then schedule_next_event placed else ok placed

unfoldable pub schedule_on : ℕ → Event → Manager → Result Manager
schedule_on elapsed event m = elim m.event_queue [
  | [] ↦ schedule_next_event (record m { event_queue = event ∷ [] })
  | first ∷ queue ↦
      if leb event.nanoseconds first.nanoseconds
      then schedule_first elapsed event first queue m
      else ok (record m { event_queue = insert_event event (first ∷ queue) })
]

-- The loop of `handle_event`: the events that fire, the first and those without a wait after it.
unfoldable pub fire : List Event → List ℕ × List Event
fire [] = ([], [])
fire (event ∷ queue) =
    if event.nanoseconds == 0
    then (event.callback ∷ (fire queue).0, (fire queue).1)
    else ([], event ∷ queue)

unfoldable pub handle_event : Manager → Result (List ℕ × Manager)
handle_event m = elim m.event_queue [
  | [] ↦ ok ([], m)
  | event ∷ queue ↦ do
    m ← schedule_next_event (record m { event_queue = (fire queue).1 })
    ok (event.callback ∷ (fire queue).0, m)
]

-- `reduce_by`: a timer has run for so long. What is left of the first event's time.
unfoldable pub reduce_by : ℕ → Manager → ℕ × Manager
reduce_by nanoseconds m =
    let queue = update_queue nanoseconds m.event_queue in
    (elim queue [ [] ↦ 0 | event ∷ rest ↦ event.nanoseconds ], record m { event_queue = queue })

unfoldable pub register_timer : Timer → Manager → Manager
register_timer timer m = record m { available_timers = m.available_timers ++ timer ∷ [] }
