-- ===== src/Scheduler/Identity.antt =====
-- The identities of tasks in process/scheduler.c: a slot of the table and a generation, which is never
-- used twice.
use efes_os.Base.{
  ℕ, zero, suc, ◌+◌, ◌-◌, ◌*◌, ◌%◌, ◌≤◌, ◌<◌, ◌≡◌, Bool, true, false, not, ◌&&◌, ◌⊎◌, inl, inr,
  none, some, Bool-cases, ◌==◌, ltb, leb, if◌then◌else◌, arith,
}
use efes_os.Scheduler.{
  Scheduler, max_tasks, max_generation, task_with_id_from, wake_task, wake_task_id,
}
use efes_os.Scheduler.Machine.{Machine}

-- The identity of a slot's task.
abbrev pub identity : Scheduler → ℕ → ℕ
identity s slot = s.slot_generation slot * 256 + slot

-- A task has the identity of its slot's latest generation, or none.
abbrev pub HasIdentity : Scheduler → ℕ → Type 0
HasIdentity s slot = ((s.tasks slot).task_id ≡ 0) ⊎ ((s.tasks slot).task_id ≡ identity s slot)

pub record HasIdentities (s : Scheduler) : Type 0 where
  pub few : s.task_count ≤ max_tasks
  pub generations : (slot : ℕ) → s.slot_generation slot ≤ max_generation
  pub identities : (slot : ℕ) → HasIdentity s slot

-- A search from slot `first` on finds the task that has the identity, in the slot that it names.
task_with_id_from_lem :
    (s : Scheduler) (task_id first n : ℕ)
    → ((slot : ℕ) → HasIdentity s slot)
    → 0 < task_id
    → first + n ≤ max_tasks
    → task_with_id_from s task_id first n ≡ (
        if leb first (task_id % 256)
          && ltb (task_id % 256) (first + n)
          && ((s.tasks (task_id % 256)).task_id == task_id)
        then some (task_id % 256)
        else none)
unfolding task_with_id_from
task_with_id_from_lem s task_id first zero h pos few = ground arith
task_with_id_from_lem s task_id first (suc n) h pos few =
    elim (Bool-cases ((s.tasks first).task_id == task_id)) [
      | inl e ↦
          let at : task_id % 256 ≡ first = slot_of (h first) (ground arith) in
          rw at (ground (arith, e))
      | inr e ↦ ground (arith, task_with_id_from_lem s task_id (first + 1) n h)
    ]
  where
    slot_of : HasIdentity s first → (s.tasks first).task_id ≡ task_id → task_id % 256 ≡ first
    slot_of (inl none_given) e = absurd (omega arith)
    slot_of (inr given) e = omega arith

-- Waking by identity is waking the slot that it names, where that slot's task still has it; any other
-- identity, such as one that an ended task had, wakes nothing.
pub wake_task_id_lem :
    (task_id : ℕ) (s : Scheduler)
    → HasIdentities s
    → wake_task_id task_id s ≡ (
        if not (task_id == 0)
          && not (task_id % 256 == 0)
          && ltb (task_id % 256) s.task_count
          && ((s.tasks (task_id % 256)).task_id == task_id)
        then wake_task (task_id % 256) s
        else (false, s))
unfolding wake_task_id
wake_task_id_lem task_id s v =
    ground (arith, task_with_id_from_lem s task_id 1 (s.task_count - 1) v.identities, v.few)

module _ {World : Type 0} (m : Machine World) where
  -- A task that was added has an identity of its slot's next generation.
  abbrev pub Added : ℕ → ℕ → Bool × Scheduler × World → Type 0
  Added slot generation o =
      HasIdentities o.1
      × (o.0 ≡ true
          → (o.1.last_added_task ≡ slot)
            × (o.1.slot_generation slot ≡ generation + 1)
            × ((o.1.tasks slot).task_id ≡ (generation + 1) * 256 + slot))
