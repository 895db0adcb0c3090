-- ===== src/Scheduler/Choice.antt =====
-- The choice of the next task in process/scheduler.c.
use efes_os.Base.{
  ℕ, zero, suc, ◌+◌, ◌-◌, ◌%◌, ◌≤◌, ◌<◌, ◌≡◌, ◌≢◌, ap, ◌∙◌, true, false, ◌⊎◌, inl, inr, ◌==◌, ltb,
  if◌then◌else◌, arith, Bool-cases, ltb→lt,
}
use efes_os.Base.Words.{add32}
use native.Mathlib.Nat.{mod-eq_of_lt, mod-eq-sub-mod}
use efes_os.Scheduler.{Scheduler, max_tasks, can_run, next_from, find_next_runnable}

-- The task at a distance from the current one, in the circle of tasks.
abbrev pub task_at : Scheduler → ℕ → ℕ
task_at s offset = add32 s.current_task offset % s.task_count

-- What the search reports: the runnable task at the least distance, or that there is none.
pub data Nearest (s : Scheduler) (first n : ℕ) : ℕ → Type 0 where
  nobody :
      ((offset : ℕ)
        → first ≤ offset
        → offset < first + n
        → can_run (s.tasks (task_at s offset)) ≡ false)
      → Nearest s first n max_tasks
  somebody :
      (offset : ℕ)
      → first ≤ offset
      → offset < first + n
      → can_run (s.tasks (task_at s offset)) ≡ true
      → ((closer : ℕ)
          → first ≤ closer
          → closer < offset
          → can_run (s.tasks (task_at s closer)) ≡ false)
      → Nearest s first n (task_at s offset)

Nearest-suc :
    (s : Scheduler) (first n k : ℕ)
    → can_run (s.tasks (task_at s first)) ≡ false
    → Nearest s (first + 1) n k
    → Nearest s first (suc n) k
Nearest-suc s first n k idle (Nearest.nobody none_runs) = Nearest.nobody λ offset low high.
    elim (Bool-cases (offset == first)) [
      | inl e ↦ let same : offset ≡ first = ground arith in rw same idle
      | inr e ↦ none_runs offset (ground arith) (omega arith)
    ]
Nearest-suc s first n k idle (Nearest.somebody offset low high runs closer) =
    Nearest.somebody offset (omega arith) (omega arith) runs (λ j p q.
      elim (Bool-cases (j == first)) [
        | inl e ↦ let same : j ≡ first = ground arith in rw same idle
        | inr e ↦ closer j (ground arith) q
      ])

next_from-Nearest : (s : Scheduler) (first n : ℕ) → Nearest s first n (next_from s first n)
unfolding next_from
next_from-Nearest s first zero = Nearest.nobody (λ offset low high. absurd (omega arith))
next_from-Nearest s first (suc n) = elim (Bool-cases (can_run (s.tasks (task_at s first)))) [
  | inl runs ↦
      rw runs
        (Nearest.somebody first (omega arith) (omega arith) runs (λ j p q. absurd (omega arith)))
  | inr idle ↦ rw idle (Nearest-suc s first n _ idle (next_from-Nearest s (first + 1) n))
]

-- The search reports the runnable task at the least distance behind the current one, which comes last,
-- and 16 where no task is runnable.
pub find_next_runnable-Nearest : (s : Scheduler) → Nearest s 1 s.task_count (find_next_runnable s)
unfolding find_next_runnable
find_next_runnable-Nearest s = next_from-Nearest s 1 s.task_count

-- How far a task is behind the current one in the circle; the current one is behind all others.
abbrev pub distance : ℕ → ℕ → ℕ → ℕ
distance count from to = if ltb from to then to - from else to + count - from

pub record Sound (s : Scheduler) : Type 0 where
  pub some_task : 0 < s.task_count
  pub few : s.task_count ≤ max_tasks
  pub is_task : s.current_task < s.task_count

wrapped : (n count : ℕ) → n < count + count → n % count ≡ (if ltb n count then n else n - count)
wrapped n count h = elim (Bool-cases (ltb n count)) [
  | inl e ↦ rw e (mod-eq_of_lt (ltb→lt n count e))
  | inr e ↦ rw e (mod-eq-sub-mod (ground arith) ∙ mod-eq_of_lt (ground arith))
]

module _ (s : Scheduler) (v : Sound s) where
  task_at_lem :
      (offset : ℕ)
      → offset ≤ s.task_count
      → task_at s offset ≡ (
          if ltb (s.current_task + offset) s.task_count
          then s.current_task + offset
          else s.current_task + offset - s.task_count)
  task_at_lem offset h =
      ap (λ n. n % s.task_count) (below offset h s.current_task s.task_count h v.is_task v.few)
      ∙ wrapped (s.current_task + offset) s.task_count (omega (arith, v.is_task))
    where
      below :
          (o : ℕ)
          → o ≤ s.task_count
          → (c count : ℕ) → offset ≤ count
          → c < count
          → count ≤ 16
          → add32 c offset ≡ c + offset
      below o p c count q r few = omega arith

  -- A task is at its distance.
  task_at-distance :
      (j : ℕ)
      → j < s.task_count
      → (0 < distance s.task_count s.current_task j)
        × (distance s.task_count s.current_task j ≤ s.task_count)
        × (task_at s (distance s.task_count s.current_task j) ≡ j)
  task_at-distance j h =
      let at = task_at_lem (distance s.task_count s.current_task j) (ground (arith, v.is_task)) in
      (ground (arith, v.is_task), ground (arith, v.is_task), at ∙ ground (arith, v.is_task))

  abbrev pub Fair : ℕ → ℕ → Type 0
  Fair j k =
      (k < s.task_count)
      × (can_run (s.tasks k) ≡ true)
      × ((k ≡ j) ⊎ (distance s.task_count k j < distance s.task_count s.current_task j))

  Nearest-Fair :
      (j k : ℕ)
      → j < s.task_count
      → can_run (s.tasks j) ≡ true
      → Nearest s 1 s.task_count k
      → Fair j k
  Nearest-Fair j k h runs (Nearest.nobody none_runs) =
      let (low, high, at) = task_at-distance j h in
      let idle : can_run (s.tasks j) ≡ false =
        rw at at (none_runs (distance s.task_count s.current_task j) (omega arith) (omega arith)) in
      absurd (ground arith)
  Nearest-Fair j k h runs (Nearest.somebody offset low high can closer) = (
    rw at (ground (arith, v.is_task)),
    can,
    elim (Bool-cases (offset == distance s.task_count s.current_task j)) [
      | inl e ↦
          let same : offset ≡ distance s.task_count s.current_task j = ground arith in
          inl (ap (task_at s) same ∙ (task_at-distance j h).2)
      | inr e ↦
          let nearer : offset < distance s.task_count s.current_task j =
            before (distance s.task_count s.current_task j) (task_at-distance j h).2
              (task_at-distance j h).0 (ground arith) in
          inr (rw at (ground (arith, v.is_task)))
    ],
  )
    where
      at : task_at s offset ≡ (
          if ltb (s.current_task + offset) s.task_count
          then s.current_task + offset
          else s.current_task + offset - s.task_count)
      at = task_at_lem offset (omega arith)

      before : (d : ℕ) → task_at s d ≡ j → 0 < d → offset ≢ d → offset < d
      before d at_d pos ne = elim (Bool-cases (ltb d offset)) [
        | inl e ↦
            let idle : can_run (s.tasks j) ≡ false = rw at_d at (closer d pos (ground arith)) in
            absurd (ground arith)
        | inr e ↦ ground arith
      ]

  -- Where a task is runnable, the search finds a runnable task, and either it is that one or that one
  -- is nearer behind the found task than it was behind the current one: it is passed over only
  -- finitely often.
  pub find_next_runnable-Fair :
      (j : ℕ) → j < s.task_count → can_run (s.tasks j) ≡ true → Fair j (find_next_runnable s)
  find_next_runnable-Fair j h runs =
      Nearest-Fair j (find_next_runnable s) h runs (find_next_runnable-Nearest s)
