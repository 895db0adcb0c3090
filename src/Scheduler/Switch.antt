-- ===== src/Scheduler/Switch.antt =====
-- The switch of tasks in process/scheduler.c, on a timer tick, a yield, a fault or an exit of a user
-- task, with the queue of kernel/ipc.c that an end of a task purges.
use efes_os.Base.{
  ℕ, zero, suc, ◌+◌, ◌-◌, ◌%◌, Bool, true, false, not, ◌&&◌, ◌||◌, Option, none, some, ◌==◌, ltb,
  leb, if◌then◌else◌,
}
use efes_os.Base.Words.{add32}
use efes_os.Base.Bitmap.{set_bit}
use efes_os.Ipc.{Ipc, purge_receiver, purge_sender}
use efes_os.Scheduler.{
  Task, Scheduler, task_user, task_runnable, task_terminated, max_tasks, set_task,
  find_next_runnable, current_task_id,
}
use efes_os.Scheduler.Machine.{Machine}
use efes_os.Scheduler.Stack.{verify_stack_canary, reap_pending_stacks}

pub record System (World : Type 0) : Type 0 where
  pub scheduler : Scheduler
  pub ipc : Ipc
  pub world : World

-- `unfinished`: the fuel was not enough.
pub data Outcome (World : Type 0) : Type 0 where
  returned : ℕ → System World → Outcome World
  panicked : Outcome World
  unfinished : Outcome World

-- The offsets of `eip` and `cs` in struct interrupt_frame, and its words with the two behind it.
abbrev pub eip_offset : ℕ
eip_offset = 56

abbrev pub cs_offset : ℕ
cs_offset = 60

abbrev pub frame_words : ℕ
frame_words = 17

module _ {World : Type 0} (m : Machine World) where
  unfoldable pub copy_words : ℕ → ℕ → ℕ → World → World
  copy_words to from zero w = w
  copy_words to from (suc n) w =
      copy_words (add32 to 4) (add32 from 4) n (m.store to (m.load from w) w)

  unfoldable pub save_user_frame : Task → ℕ → World → World
  save_user_frame task frame w =
      if (task.frame == 0) || (task.frame == frame)
      then w
      else copy_words task.frame frame (frame_words + 2) w

  unfoldable pub current : Scheduler → Task
  current s = s.tasks s.current_task

  -- Where the current task goes on, and where the next one is entered.
  unfoldable pub save_current : ℕ → System World → System World
  save_current frame x =
      let s = x.scheduler in
      if (current s).mode == task_user
      then record x { world = save_user_frame (current s) frame x.world }
      else record x { scheduler = set_task s.current_task (record (current s) { frame = frame }) s }

  unfoldable pub enter : ℕ → System World → Outcome World
  enter next x =
      let s = x.scheduler in
      let task = record (s.tasks next) {
        switches = add32 (s.tasks next).switches 1;
        ticks_left = (s.tasks next).priority;
      } in
      let (ok, w) = m.paging_switch_address_space task.address_space x.world in
      if not ok
      then panicked
      else returned task.frame (record x {
        scheduler = record (set_task next task s) { current_task = next };
        world = w;
      })

  unfoldable pub choose : ℕ → System World → Outcome World
  choose frame x =
      let next = find_next_runnable x.scheduler in
      if next == max_tasks
      then panicked
      else if next == x.scheduler.current_task
      then returned frame x
      else enter next x

  -- The rest of `schedule_from_frame`, behind the check for a fault.
  unfoldable pub switch_from : ℕ → Bool → System World → Outcome World
  switch_from frame force x =
      let y = save_current frame x in
      let s = y.scheduler in
      if not force && ((current s).state == task_runnable) && ltb 1 (current s).ticks_left
      then returned frame (record y {
        scheduler =
            set_task s.current_task (record (current s) { ticks_left = (current s).ticks_left - 1 })
              s;
      })
      else choose frame y

  -- A user task that is about to go on where it may not execute.
  unfoldable pub is_faulting : ℕ → System World → Bool
  is_faulting frame x =
      ((current x.scheduler).mode == task_user)
      && ((current x.scheduler).state == task_runnable)
      && (m.load (add32 frame cs_offset) x.world % 4 == 3)
      && not (m.paging_validate_user_execute (m.load (add32 frame eip_offset) x.world) x.world)

  -- The current task is terminated, and its stack is to be removed.
  unfoldable pub ended : Scheduler → Scheduler
  ended s = record (set_task s.current_task (record (current s) { state = task_terminated }) s) {
    pending_reap_mask = set_bit s.pending_reap_mask s.current_task;
  }

  -- No message to a task or from it stays.
  unfoldable pub purged : ℕ → Ipc → Ipc
  purged task_id ipc = (purge_sender task_id (purge_receiver task_id ipc).1).1

  -- The current task is gone: its messages, its state, and what the process table holds for it.
  unfoldable pub end_current : System World → Option (Bool × System World)
  end_current x =
      let s = x.scheduler in
      elim (m.user_process_reap_task s.current_task (current_task_id (ended s)) x.world) [
        | none ↦ none
        | some (ok, w) ↦
            some (
              ok,
              record { scheduler = ended s; ipc = purged (current_task_id s) x.ipc; world = w },
            )
      ]

  -- scheduler_on_user_fault and scheduler_on_user_exit, with the call of `schedule_from_frame` that
  -- they end in.
  unfoldable pub end_user :
      (ℕ → Bool → System World → Outcome World) → ℕ → System World → Outcome World
  end_user schedule frame x =
      if not x.scheduler.scheduler_started
        || leb x.scheduler.task_count x.scheduler.current_task
        || not ((current x.scheduler).mode == task_user)
      then returned frame x
      else elim (end_current x) [
        | none ↦ panicked
        | some (ok, y) ↦ if not ok then panicked else schedule frame true y
      ]

  unfoldable pub schedule_from_frame : ℕ → ℕ → Bool → System World → Outcome World
  schedule_from_frame zero frame force x = unfinished
  schedule_from_frame (suc fuel) frame force x =
      let s = x.scheduler in
      let fault = λ (y : System World). end_user (schedule_from_frame fuel) frame y in
      if not s.scheduler_started || (s.task_count == 0) || (frame == 0)
      then returned frame x
      else if not (verify_stack_canary m (current s) x.world)
      then panicked
      else elim (reap_pending_stacks m s x.world) [
        | none ↦ panicked
        | some (s', w) ↦
            let y : System World = record x { scheduler = s'; world = w } in
            if is_faulting frame y then fault y else switch_from frame force y
      ]

  -- One call from an interrupt and the one after a fault: `schedule_from_frame` is called twice at
  -- most.
  abbrev pub enough : ℕ
  enough = 2

  unfoldable pub on_timer : ℕ → System World → Outcome World
  on_timer frame x = schedule_from_frame enough frame false x

  unfoldable pub on_yield : ℕ → System World → Outcome World
  on_yield frame x = schedule_from_frame enough frame true x

  unfoldable pub on_user_fault : ℕ → System World → Outcome World
  on_user_fault frame x = end_user (schedule_from_frame enough) frame x

  unfoldable pub on_user_exit : ℕ → System World → Outcome World
  on_user_exit frame x = end_user (schedule_from_frame enough) frame x
