-- ===== src/Scheduler/RoundRobin.antt =====
-- `pick_next` of src/kernel/processes/CoreScheduler.cpp: the threads take turns.
use native.Mathlib.Nat.{mod-eq_of_lt, mod_self, mul-le-mul_right}
use ow_os.Common.{
  ℕ, zero, suc, ◌+◌, ◌-◌, ◌*◌, ◌%◌, ◌≤◌, ◌<◌, ◌≡◌, ◌⊎◌, inl, inr, refl, ap, ◌∙◌, Bool-cases, true,
  false, not, ◌&&◌, ltb, ◌==◌, if◌then◌else◌, lt→ltb, arith, word, add32, length, get_or,
  get_elem?-eq-get_or, Result, ok,
}
use ow_os.Scheduler.{
  ThreadState, running, ready, suspended, sleeping, Core, Round, picked, again, visit, visit_state,
  pick_from, pick_next, rounds_of,
}

-- The place so many steps behind another, around the end.
abbrev pub place : ℕ → ℕ → ℕ → ℕ
place n start steps = if ltb (start + steps) n then start + steps else start + steps - n

-- The thread at a place of the list.
abbrev pub thread_at : Core → ℕ → ℕ
thread_at core i = get_or core.running_threads i 0

-- A thread that `pick_next` passes over: it runs on another core, or is suspended, or sleeps. One
-- that is blocked or terminated is none: `pick_next` may wake the former and removes the latter.
abbrev pub IsPassedOver : ThreadState → Type 0
IsPassedOver s = (s ≡ running) ⊎ (s ≡ suspended) ⊎ (s ≡ sleeping)

next_place :
    (n start steps : ℕ)
    → start < n
    → n < word
    → steps < n
    → add32 (place n start steps) 1 % n ≡ place n start (steps + 1)
next_place n start steps inside small few = elim (Bool-cases (place n start steps + 1 == n)) [
  | inl e ↦
      let end : add32 (place n start steps) 1 ≡ n = ground (arith, e, inside, small, few) in
      rw end (mod_self n ∙ ground (arith, e, inside, few))
  | inr e ↦
      let next : add32 (place n start steps) 1 ≡ place n start steps + 1 =
        ground (arith, e, inside, small, few) in
      let within : place n start steps + 1 < n = ground (arith, e, inside, few) in
      rw next (mod-eq_of_lt within ∙ ground (arith, e, inside, few))
]

visit_waiting :
    (t start : ℕ) (core : Core)
    → IsPassedOver (core.threads t).state
    → 1 < length core.running_threads
    → visit t start core ≡ ok (again core start)
unfolding visit
visit_waiting t start core (inl e) two =
    let more : (length core.running_threads == 1) ≡ false = ground (arith, two) in
    ap (λ (s : ThreadState). visit_state s t start core) e ∙ rw more refl
visit_waiting t start core (inr (inl e)) two =
    ap (λ (s : ThreadState). visit_state s t start core) e
visit_waiting t start core (inr (inr e)) two =
    ap (λ (s : ThreadState). visit_state s t start core) e

-- The scheduler of a core that stands at a place.
abbrev pub standing : ℕ → Core → Core
standing i core = record core { current_thread_index = i }

-- The list of the core has more than one thread, and the core stands in it.
pub record IsQueue (core : Core) : Type 0 where
  pub several : 1 < length core.running_threads
  pub inside : core.current_thread_index < length core.running_threads
  pub few : length core.running_threads < word

module _ (core : Core) (queue : IsQueue core) where
  abbrev pub size : ℕ
  size = length core.running_threads

  abbrev pub start : ℕ
  start = core.current_thread_index

  -- The state of the thread so many steps behind the current place.
  abbrev pub state_at : ℕ → ThreadState
  state_at steps = (core.threads (thread_at core (place size start steps))).state

  -- The loop's body up to the switch.
  pub step :
      (rounds steps : ℕ) (round : Round)
      → steps < size
      → visit
          (thread_at core (place size start (steps + 1)))
          start
          (standing (place size start (steps + 1)) core)
        ≡ ok round
      → pick_from (suc rounds) start (standing (place size start steps) core)
        ≡ elim round as (λ r. Result (Core × ℕ)) [
          | picked core t ↦ ok (core, t)
          | again core start ↦
              if not (core.current_thread_index == start) && ltb 1 (length core.running_threads)
              then pick_from rounds start core
              else ok (core, core.idle_thread)
        ]
  unfolding pick_from
  step rounds steps round within visited =
      let next = next_place size start steps queue.inside queue.few within in
      let there =
        get_elem?-eq-get_or core.running_threads (place size start (steps + 1)) 0
          (ground (arith, queue.inside, within)) in
      rw (next, there, visited) refl

  pass :
      (rounds steps : ℕ)
      → steps + 1 < size
      → IsPassedOver (state_at (steps + 1))
      → pick_from (suc rounds) start (standing (place size start steps) core)
        ≡ pick_from rounds start (standing (place size start (steps + 1)) core)
  pass rounds steps within waiting =
      let other : (place size start (steps + 1) == start) ≡ false =
        ground (arith, queue.inside, within) in
      let more : ltb 1 size ≡ true = lt→ltb _ _ queue.several in
      step rounds steps (again (standing (place size start (steps + 1)) core) start)
        (omega (arith, within))
        (visit_waiting (thread_at core (place size start (steps + 1))) start
          (standing (place size start (steps + 1)) core) waiting queue.several)
      ∙ rw (other, more) refl

  walk :
      (rounds m steps : ℕ)
      → steps + m < size
      → ((i : ℕ) → steps < i → i ≤ steps + m → IsPassedOver (state_at i))
      → pick_from (m + rounds) start (standing (place size start steps) core)
        ≡ pick_from rounds start (standing (place size start (steps + m)) core)
  walk rounds zero steps within waiting =
      ap (λ (x : ℕ). pick_from x start (standing (place size start steps) core)) (omega arith)
      ∙ ap (λ (x : ℕ). pick_from rounds start (standing (place size start x) core)) (omega arith)
  walk rounds (suc m) steps within waiting =
      ap (λ (x : ℕ). pick_from x start (standing (place size start steps) core)) (omega arith)
      ∙ pass (m + rounds) steps (omega (arith, within))
          (waiting (steps + 1) (omega arith) (omega arith))
      ∙ walk rounds m (steps + 1) (omega (arith, within))
          (λ i low high. waiting i (omega (arith, low)) (omega (arith, high)))
      ∙ ap (λ (x : ℕ). pick_from rounds start (standing (place size start x) core)) (omega arith)

  ready_step :
      (rounds steps : ℕ)
      → steps < size
      → state_at (steps + 1) ≡ ready
      → pick_from (suc rounds) start (standing (place size start steps) core)
        ≡ ok (
          standing (place size start (steps + 1)) core,
          thread_at core (place size start (steps + 1)),
        )
  unfolding visit
  ready_step rounds steps within e =
      step rounds steps
        (picked (standing (place size start (steps + 1)) core)
          (thread_at core (place size start (steps + 1))))
        within
        (ap
          (λ (s : ThreadState).
            visit_state s (thread_at core (place size start (steps + 1))) start
              (standing (place size start (steps + 1)) core))
          e)

  pub enough : (m : ℕ) → m < size → (r : ℕ) × (rounds_of core ≡ m + suc r)
  enough m h = (rounds_of core - m - 1, omega (arith, h, squares))
    where
      squares : size ≤ (size + 1) * (size + 1)
      squares = omega (arith, mul-le-mul_right {m = 1} {n = size + 1} (size + 1) (omega arith))

  pick_next-from : pick_next core ≡ pick_from (rounds_of core) start core
  unfolding pick_next
  pick_next-from =
      let some_thread : (size == 0) ≡ false = ground (arith, queue.several) in rw some_thread refl

  pub from_start :
      (r m : ℕ)
      → m < size
      → rounds_of core ≡ m + suc r
      → ((i : ℕ) → 0 < i → i ≤ m → IsPassedOver (state_at i))
      → pick_next core ≡ pick_from (suc r) start (standing (place size start m) core)
  from_start r m within rounds waiting =
      pick_next-from
      ∙ ap (λ (x : ℕ). pick_from x start core) rounds
      ∙ ap (λ (x : ℕ). pick_from (m + suc r) start (standing x core)) (ground (arith, queue.inside))
      ∙ walk (suc r) m 0 (omega (arith, within)) (λ i low high. waiting i low (omega (arith, high)))
      ∙ ap (λ (x : ℕ). pick_from (suc r) start (standing (place size start x) core)) (omega arith)

  -- On a core with more than one thread in its list: when the threads of the places behind the
  -- current one are running, suspended or sleeping, none of them blocked or terminated, up to a
  -- place whose thread is ready, that thread is picked, and the core stands at its place. Nothing
  -- else changes, and the loop ends. The places go around the end of the list, and the current
  -- place is the last.
  pub pick_next-ready :
      (steps : ℕ)
      → steps < size
      → ((i : ℕ) → 0 < i → i ≤ steps → IsPassedOver (state_at i))
      → state_at (steps + 1) ≡ ready
      → pick_next core
        ≡ ok (
          standing (place size start (steps + 1)) core,
          thread_at core (place size start (steps + 1)),
        )
  pick_next-ready steps within waiting is_ready =
      let (r, rounds) = enough steps within in
      from_start r steps within rounds waiting ∙ ready_step r steps within is_ready

  -- On a core with more than one thread in its list: when all of them are running, suspended or
  -- sleeping, none of them ready, blocked or terminated, the idle thread is picked, the loop ends,
  -- and the core is as before.
  pub pick_next-idle :
      ((i : ℕ) → 0 < i → i ≤ size → IsPassedOver (state_at i))
      → pick_next core ≡ ok (core, core.idle_thread)
  pick_next-idle waiting =
      let m = size - 1 in
      let (r, rounds) = enough m (omega (arith, queue.several)) in
      let home : place size start (m + 1) ≡ start = ground (arith, queue.inside, queue.several) in
      let same : (place size start (m + 1) == start) ≡ true = ground (arith, home) in
      from_start r m (omega (arith, queue.several)) rounds
        (λ i low high. waiting i low (omega (arith, high)))
      ∙ step r m (again (standing (place size start (m + 1)) core) start)
          (omega (arith, queue.several))
          (visit_waiting (thread_at core (place size start (m + 1))) start
            (standing (place size start (m + 1)) core)
            (waiting (m + 1) (omega arith) (omega (arith, queue.several))) queue.several)
      ∙ rw same (ap (λ (x : ℕ). ok (standing x core, core.idle_thread)) home)
