-- ===== src/Scheduler/Switching.antt =====
-- `tick` of src/kernel/processes/CoreScheduler.cpp, and the threads that wait for a mutex of
-- src/kernel/locking/Mutex.cpp.
use ow_os.Common.{
  ℕ, ◌+◌, ◌≤◌, ◌<◌, ◌≡◌, ◌≢◌, inl, inr, refl, sym, ap, ◌∙◌, subst, Bool-cases, true, false, Option,
  none, some, ◌==◌, arith, length, ok,
}
use ow_os.Scheduler.{
  Mutex, try_lock, spin_try_lock, ThreadState, running, ready, blocked, suspended, sleeping,
  terminated, Core, picked, visit, visit_state, wake_blocked, set_thread, set_mutex, pick_next,
  switch_states, preempt, preempt_current, tick,
}
use ow_os.Scheduler.RoundRobin.{
  IsQueue, IsPassedOver, place, thread_at, standing, start, state_at, pick_next-ready, step, enough,
  from_start,
}

-- No thread runs but the current one.
abbrev pub IsAlone : Core → Type 0
IsAlone core = (t : ℕ) → (core.threads t).state ≡ running → core.current_thread ≡ some t

not_running : (s : ThreadState) → preempt s ≢ running
not_running running e = cc
not_running ready e = cc
not_running blocked e = cc
not_running suspended e = cc
not_running sleeping e = cc
not_running terminated e = cc

-- After a thread is made ready, none runs.
none_runs :
    (current : Option ℕ) (core : Core) (t : ℕ)
    → ((t : ℕ) → (core.threads t).state ≡ running → current ≡ some t)
    → ((preempt_current current core).threads t).state ≢ running
none_runs none core t alone = λ e. (let no_thread : none ≡ some t = alone t e in cc)
none_runs (some c) core t alone = elim (Bool-cases (t == c)) [
  | inl same ↦ rw same (not_running (core.threads c).state)
  | inr other ↦ rw other (λ e.
      let c_is : some c ≡ some t = alone t e in
      let number : c ≡ t = cc in ground (arith, other, number))
]

module _ (current : Option ℕ) (next : ℕ) (core : Core)
    (alone : (t : ℕ) → (core.threads t).state ≡ running → current ≡ some t) where
  next_runs : ((switch_states current next core).threads next).state ≡ running
  unfolding switch_states
  next_runs = let same : (next == next) ≡ true = ground arith in rw same refl

  switch_states-IsAlone : IsAlone (switch_states current next core)
  unfolding switch_states
  switch_states-IsAlone t = elim (Bool-cases (t == next)) [
    | inl e ↦ let same : next ≡ t = ground (arith, e) in λ runs. ap (λ (x : ℕ). some x) same
    | inr e ↦ rw e (λ runs. absurd (none_runs current core t alone runs))
  ]

-- A thread that has run and does not any more is ready.
switch_states-ready :
    (c next : ℕ) (core : Core)
    → (core.threads c).state ≡ running
    → (c == next) ≡ false
    → ((switch_states (some c) next core).threads c).state ≡ ready
unfolding switch_states
switch_states-ready c next core runs other =
    let same : (c == c) ≡ true = ground arith in rw (other, same) (ap preempt runs)

switched_to :
    (current : Option ℕ) (next : ℕ) (core : Core)
    → (switch_states current next core).current_thread ≡ some next
unfolding switch_states
switched_to current next core = refl

tick-ok :
    (core after : Core) (next : ℕ)
    → pick_next core ≡ ok (after, next)
    → tick core ≡ ok (switch_states core.current_thread next after)
unfolding tick
tick-ok core after next e = rw e refl

-- A thread that runs is none that is ready.
differ :
    (core : Core) (c t : ℕ)
    → (core.threads c).state ≡ running
    → (core.threads t).state ≡ ready
    → (c == t) ≡ false
differ core c t runs is_ready = elim (Bool-cases (c == t)) [
  | inl e ↦
      let same : c ≡ t = ground (arith, e) in
      let both : running ≡ ready =
        sym runs ∙ ap (λ (x : ℕ). (core.threads x).state) same ∙ is_ready in
      cc
  | inr e ↦ e
]

-- On a core with more than one thread in its list, of which none runs but the current one: when the
-- threads of the places behind the current one are running, suspended or sleeping, none of them
-- blocked or terminated, up to a place whose thread is ready, a tick makes this thread the current
-- one. It runs, no other does, and the thread that ran is ready.
pub tick-IsAlone :
    (core : Core) (queue : IsQueue core) (steps : ℕ)
    → steps < length core.running_threads
    → ((i : ℕ) → 0 < i → i ≤ steps → IsPassedOver (state_at core queue i))
    → state_at core queue (steps + 1) ≡ ready
    → IsAlone core
    → (after : Core) × (tick core ≡ ok after)
      × (after.current_thread
          ≡ some (
              thread_at core
                (place (length core.running_threads) core.current_thread_index (steps + 1))))
      × ((after.threads (
            thread_at core
              (place (length core.running_threads) core.current_thread_index (steps + 1)))).state
          ≡ running)
      × IsAlone after
      × ((c : ℕ)
          → core.current_thread ≡ some c
          → (core.threads c).state ≡ running
          → (after.threads c).state ≡ ready)
tick-IsAlone core queue steps within waiting is_ready alone =
    let i = place (length core.running_threads) core.current_thread_index (steps + 1) in
    let next = thread_at core i in
    (
      switch_states core.current_thread next (standing i core),
      tick-ok core (standing i core) next
          (pick_next-ready core queue steps within waiting is_ready),
      switched_to core.current_thread next (standing i core),
      next_runs core.current_thread next (standing i core) alone,
      switch_states-IsAlone core.current_thread next (standing i core) alone,
      (λ c current runs.
          subst
            (λ (x : Option ℕ). ((switch_states x next (standing i core)).threads c).state ≡ ready)
            (sym current)
            (switch_states-ready c next (standing i core) runs (differ core c next runs is_ready))),
    )

wake :
    (t start m : ℕ) (core : Core)
    → (core.threads t).lock ≡ some m
    → (core.mutexes m).spinlock ≡ true
    → wake_blocked t start core
      ≡ ok (
          picked
            (set_thread t
              (record (core.threads t) { lock = none })
              (set_mutex m (record { spinlock = false; locked = true }) core))
            t)
unfolding wake_blocked try_lock spin_try_lock
wake t start m core waits_for held = rw (waits_for, held) refl

-- On a core with more than one thread in its list: when the threads of the places behind the
-- current one are running, suspended or sleeping, none of them ready, blocked or terminated, up to
-- a place whose thread is blocked by a mutex, and the mutex's spinlock is held, that thread is
-- picked, whether or not the mutex is locked. The mutex is locked then, and its spinlock is free.
pub pick_next-blocked :
    (core : Core) (queue : IsQueue core) (steps m : ℕ)
    → steps < length core.running_threads
    → ((i : ℕ) → 0 < i → i ≤ steps → IsPassedOver (state_at core queue i))
    → state_at core queue (steps + 1) ≡ blocked
    → (core.threads (
        thread_at core
          (place (length core.running_threads) core.current_thread_index (steps + 1)))).lock
      ≡ some m
    → (core.mutexes m).spinlock ≡ true
    → (after : Core) × (pick_next core
        ≡ ok (
          after,
          thread_at core
              (place (length core.running_threads) core.current_thread_index (steps + 1)),
        ))
      × (after.mutexes m ≡ record { spinlock = false; locked = true })
unfolding visit
pick_next-blocked core queue steps m within waiting is_blocked waits_for held =
    let (r, rounds) = enough core queue steps within in
    let i = place (length core.running_threads) core.current_thread_index (steps + 1) in
    let t = thread_at core i in
    let same : (m == m) ≡ true = ground arith in
    let free : Mutex = record { spinlock = false; locked = true } in
    let after : Core =
      set_thread t (record (core.threads t) { lock = none }) (set_mutex m free (standing i core)) in
    (
      after,
      from_start core queue r steps within rounds waiting
          ∙ step core queue r steps (picked after t) within (
              ap (λ (s : ThreadState). visit_state s t core.current_thread_index (standing i core))
                is_blocked
              ∙ wake t core.current_thread_index m (standing i core) waits_for held),
      rw same refl,
    )
