-- ===== src/Tests/Scheduler.antt =====
-- Runs of src/kernel/processes/CoreScheduler.cpp on a core with three threads.
use ow_os.Common.{
  ℕ, ◌≡◌, ◌≢◌, ap, subst, Bool-cases, ◌≤◌, ◌<◌, inl, inr, refl, true, false, if◌then◌else◌, ◌==◌,
  [], ◌∷◌, some, arith, ok,
}
use ow_os.Scheduler.{Thread, ThreadState, running, ready, blocked, suspended, Core, pick_next, tick}
use ow_os.Scheduler.RoundRobin.{
  IsQueue, IsPassedOver, place, thread_at, state_at, standing, pick_next-ready, pick_next-idle,
}
use ow_os.Scheduler.Switching.{IsAlone, tick-IsAlone, pick_next-blocked}

abbrev thread : ThreadState → Thread
thread s = record { state = s; lock = some 5; has_started = true }

-- Thread 7 runs, thread 8 is suspended, and thread 9 has a state.
abbrev core : ThreadState → Core
core s = record {
  threads = λ t. if t == 7 then thread running else if t == 8 then thread suspended else thread s;
  mutexes = λ m. record { spinlock = true; locked = true };
  running_threads = 7 ∷ 8 ∷ 9 ∷ [];
  current_thread = some 7;
  current_thread_index = 0;
  idle_thread = 1;
  freed_stacks = [];
}

core-IsQueue : (s : ThreadState) → IsQueue (core s)
core-IsQueue s = record { several = omega arith; inside = omega arith; few = omega arith }

-- The place behind the current one has the suspended thread.
first_waits :
    (s : ThreadState) (i : ℕ) → 0 < i → i ≤ 1 → IsPassedOver (state_at (core s) (core-IsQueue s) i)
first_waits s i low high =
    let one : 1 ≡ i = omega (arith, low, high) in
    subst (λ (i : ℕ). IsPassedOver (state_at (core s) (core-IsQueue s) i)) one (inr (inl refl))

all_wait : (t : ℕ) → IsPassedOver ((core suspended).threads t).state
all_wait t = elim (Bool-cases (t == 7)) [
  | inl e ↦ rw e (inl refl)
  | inr e ↦
      rw e (elim (Bool-cases (t == 8)) [
        | inl e ↦ rw e (inr (inl refl))
        | inr e ↦ rw e (inr (inl refl))
      ])
]

one_runs : (s : ThreadState) → s ≢ running → IsAlone (core s)
one_runs s other t = elim (Bool-cases (t == 7)) [
  | inl e ↦ let same : 7 ≡ t = ground (arith, e) in λ runs. ap (λ (x : ℕ). some x) same
  | inr e ↦ rw e (elim (Bool-cases (t == 8)) [
    | inl e ↦ rw e (λ runs. absurd (suspended_is_not runs))
    | inr e ↦ rw e (λ runs. absurd (other runs))
  ])
]
  where
    suspended_is_not : suspended ≢ running
    suspended_is_not e = cc

pick_next-ready_example : pick_next (core ready) ≡ ok (standing 2 (core ready), 9)
pick_next-ready_example =
    pick_next-ready (core ready) (core-IsQueue ready) 1 (omega arith) (first_waits ready) refl

pick_next-idle_example : pick_next (core suspended) ≡ ok (core suspended, 1)
pick_next-idle_example =
    pick_next-idle (core suspended) (core-IsQueue suspended)
      (λ i low high. all_wait (thread_at (core suspended) (place 3 0 i)))

ready_is_not : ready ≢ running
ready_is_not e = cc

tick-IsAlone_example :
    (after : Core) × (tick (core ready) ≡ ok after)
    × (after.current_thread ≡ some 9)
    × ((after.threads 9).state ≡ running)
    × IsAlone after
    × ((c : ℕ)
        → some 7 ≡ some c
        → ((core ready).threads c).state ≡ running
        → (after.threads c).state ≡ ready)
tick-IsAlone_example =
    tick-IsAlone (core ready) (core-IsQueue ready) 1 (omega arith) (first_waits ready) refl
      (one_runs ready ready_is_not)

pick_next-blocked_example :
    (after : Core) × (pick_next (core blocked) ≡ ok (after, 9))
    × (after.mutexes 5 ≡ record { spinlock = false; locked = true })
pick_next-blocked_example =
    pick_next-blocked (core blocked) (core-IsQueue blocked) 1 5 (omega arith) (first_waits blocked)
      refl refl refl
