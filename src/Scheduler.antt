-- ===== src/Scheduler.antt =====
-- src/kernel/processes/CoreScheduler.cpp, src/kernel/locking/Mutex.cpp and
-- src/kernel/arch/i686/spinlock.cpp. Threads and mutexes are numbers, and what they point to is a
-- function. The switch of the registers, the stacks and the memory space is left out.
pub mod RoundRobin
pub mod Switching
use ow_os.Common.{
  ℕ, zero, suc, ◌+◌, ◌*◌, ◌%◌, Bool, true, false, not, ◌&&◌, ◌||◌, Option, none, some, List, [],
  ◌∷◌, ltb, ◌==◌, if◌then◌else◌, add32, sub32, length, get_elem?, Result, ok, err, null_deref,
  out_of_bounds, out_of_fuel, or_fault, ◌>>=◌,
}

-- `Spinlock::try_lock`: what it returns, and whether the lock is held after it.
unfoldable pub spin_try_lock : Bool → Bool × Bool
spin_try_lock held = (held, true)

-- `Mutex`: whether its spinlock is held, and `m_locked`.
pub record Mutex : Type 0 where
  pub spinlock : Bool
  pub locked : Bool

-- `Mutex::try_lock`
unfoldable pub try_lock : Mutex → Bool × Mutex
try_lock m =
    let spin = spin_try_lock m.spinlock in
    if not (spin.0)
    then (false, record m { spinlock = spin.1 })
    else (true, record { spinlock = false; locked = true })

-- `Mutex::unlock`, by a thread.
unfoldable pub unlock : Mutex → Mutex
unlock m = record m { locked = false }

pub data ThreadState : Type 0 where
  running ready blocked suspended sleeping terminated : ThreadState

-- `thread_t`
pub record Thread : Type 0 where
  pub state : ThreadState
  pub lock : Option ℕ
  pub has_started : Bool

-- What `Processor` has of the scheduler, and the stacks that were given back.
pub record Core : Type 0 where
  pub threads : ℕ → Thread
  pub mutexes : ℕ → Mutex
  pub running_threads : List ℕ
  pub current_thread : Option ℕ
  pub current_thread_index : ℕ
  pub idle_thread : ℕ
  pub freed_stacks : List ℕ

abbrev pub set_thread : ℕ → Thread → Core → Core
set_thread t thread core = record core { threads = λ i. if i == t then thread else core.threads i }

abbrev pub set_mutex : ℕ → Mutex → Core → Core
set_mutex m mutex core = record core { mutexes = λ i. if i == m then mutex else core.mutexes i }

-- `erase` of one element.
unfoldable pub erase : List ℕ → ℕ → List ℕ
erase [] i = []
erase (x ∷ xs) zero = xs
erase (x ∷ xs) (suc i) = x ∷ erase xs i

abbrev pub is_current : ℕ → Option ℕ → Bool
is_current t none = false
is_current t (some c) = t == c

-- A round of the loop in `pick_next` returns a thread, or goes on with the place to end at.
pub data Round : Type 0 where
  picked : Core → ℕ → Round
  again : Core → ℕ → Round

-- The case of a blocked thread.
unfoldable pub wake_blocked : ℕ → ℕ → Core → Result Round
wake_blocked t start core = do
  m ← or_fault (core.threads t).lock null_deref
  let tried = try_lock (core.mutexes m) in
      (let after = set_mutex m (tried.1) core in
        if tried.0
        then ok (picked (set_thread t (record (core.threads t) { lock = none }) after) t)
        else ok (again after start))

-- The case of a terminated thread.
unfoldable pub remove_terminated : ℕ → ℕ → Core → Round
remove_terminated t start core =
    if is_current t core.current_thread
    then again core start
    else (let index = core.current_thread_index in
        let left = erase core.running_threads index in
        let after = record core { running_threads = left; freed_stacks = t ∷ core.freed_stacks } in
        if length left == 0
        then picked after core.idle_thread
        else again (record after { current_thread_index = sub32 index 1 })
            (if index == start then add32 start 1 % length left else start))

-- The switch in the loop, on the state of the thread at the next place.
abbrev pub visit_state : ThreadState → ℕ → ℕ → Core → Result Round
visit_state ready t start core = ok (picked core t)
visit_state blocked t start core = wake_blocked t start core
visit_state terminated t start core = ok (remove_terminated t start core)
visit_state running t start core =
    if length core.running_threads == 1 then ok (picked core t) else ok (again core start)
visit_state suspended t start core = ok (again core start)
visit_state sleeping t start core = ok (again core start)

unfoldable pub visit : ℕ → ℕ → Core → Result Round
visit t start core = visit_state (core.threads t).state t start core

-- The loop in `pick_next`.
unfoldable pub pick_from : ℕ → ℕ → Core → Result (Core × ℕ)
pick_from zero start core = err out_of_fuel
pick_from (suc rounds) start core = do
  let index = add32 core.current_thread_index 1 % length core.running_threads
  t ← or_fault (get_elem? core.running_threads index) out_of_bounds
  round ← visit t start (record core { current_thread_index = index })
  elim round [
    | picked core t ↦ ok (core, t)
    | again core start ↦
        if not (core.current_thread_index == start) && ltb 1 (length core.running_threads)
        then pick_from rounds start core
        else ok (core, core.idle_thread)
  ]

-- Each thread is visited at most once before the next one is removed.
abbrev pub rounds_of : Core → ℕ
rounds_of core = (length core.running_threads + 1) * (length core.running_threads + 1)

unfoldable pub pick_next : Core → Result (Core × ℕ)
pick_next core =
    if length core.running_threads == 0
    then ok (core, core.idle_thread)
    else pick_from (rounds_of core) core.current_thread_index core

-- The state of a thread that runs is no more `running`.
abbrev pub preempt : ThreadState → ThreadState
preempt running = ready
preempt other = other

abbrev pub preempt_current : Option ℕ → Core → Core
preempt_current none core = core
preempt_current (some c) core =
    set_thread c (record (core.threads c) { state = preempt (core.threads c).state }) core

-- The thread that ran is ready, and the next one runs.
unfoldable pub switch_states : Option ℕ → ℕ → Core → Core
switch_states current next core =
    let after = preempt_current current core in
    record (set_thread next (record (after.threads next) { state = running; has_started = true })
      after) { current_thread = some next }

unfoldable pub tick : Core → Result Core
tick core = do (after, next) ← pick_next core; ok (switch_states core.current_thread next after)

unfoldable pub suspend : ℕ → Core → Core
suspend t core = set_thread t (record (core.threads t) { state = suspended }) core

unfoldable pub resume : ℕ → Core → Core
resume t core = set_thread t (record (core.threads t) { state = ready }) core

unfoldable pub terminate : ℕ → Core → Core
terminate t core = set_thread t (record (core.threads t) { state = terminated }) core

-- The current thread waits for a mutex.
unfoldable pub block : ℕ → Core → Result Core
block m core = do
  t ← or_fault core.current_thread null_deref
  ok (set_thread t (record (core.threads t) { lock = some m; state = blocked }) core)

-- `terminate_current`, up to its sleep.
unfoldable pub terminate_current : Core → Result Core
terminate_current core = or_fault core.current_thread null_deref >>= (λ t. ok (terminate t core))
