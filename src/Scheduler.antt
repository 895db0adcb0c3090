-- ===== src/Scheduler.antt =====
-- process/scheduler.c: the tasks, their states and the choice of the next one. Saving and restoring the
-- interrupt flag is left out: a call is atomic. An address is a number, and 0 is the null pointer.
pub mod Machine
pub mod Stack
pub mod Switch
pub mod Add
pub mod Choice
pub mod Ending
pub mod Purging
pub mod Identity
mod Tests
use efes_os.Base.{
  ℕ, zero, suc, ◌+◌, ◌-◌, ◌*◌, ◌%◌, Bool, true, false, not, ◌&&◌, ◌||◌, Option, none, some, ◌==◌,
  ltb, leb, if◌then◌else◌,
}
use efes_os.Base.Arrays.{update}
use efes_os.Base.Words.{add32}
use efes_os.Base.Bitmap.{test_bit}

abbrev pub max_tasks : ℕ
max_tasks = 16

abbrev pub stack_pages : ℕ
stack_pages = 8

abbrev pub page_size : ℕ
page_size = 4096

abbrev pub stack_stride : ℕ
stack_stride = page_size * (stack_pages + 1)

abbrev pub default_priority : ℕ
default_priority = 1

abbrev pub max_priority : ℕ
max_priority = 8

abbrev pub max_generation : ℕ
max_generation = 0x00FF_FFFF

abbrev pub name_max : ℕ
name_max = 16

-- SCHEDULER_TASK_RUNNABLE, SCHEDULER_TASK_TERMINATED and SCHEDULER_TASK_BLOCKED
abbrev pub task_runnable : ℕ
task_runnable = 0

abbrev pub task_terminated : ℕ
task_terminated = 1

abbrev pub task_blocked : ℕ
task_blocked = 2

abbrev pub task_kernel : ℕ
task_kernel = 0

abbrev pub task_user : ℕ
task_user = 1

pub record Task : Type 0 where
  pub name : ℕ → ℕ
  pub entry : ℕ
  pub frame : ℕ
  pub stack_base : ℕ
  pub stack_frames : ℕ → ℕ
  pub stack_canary : ℕ
  pub user_entry : ℕ
  pub user_stack_top : ℕ
  pub address_space : ℕ
  pub mode : ℕ
  pub priority : ℕ
  pub ticks_left : ℕ
  pub switches : ℕ
  pub state : ℕ
  pub task_id : ℕ

pub record Scheduler : Type 0 where
  pub tasks : ℕ → Task
  pub task_count : ℕ
  pub current_task : ℕ
  pub scheduler_started : Bool
  pub pending_reap_mask : ℕ
  pub stack_reap_count : ℕ
  pub last_added_task : ℕ
  pub slot_generation : ℕ → ℕ

-- The `n` rounds of the copy of a name that are left at `index`: where it stops, and the array.
unfoldable pub copy_name_from : (ℕ → ℕ) → ℕ → ℕ → (ℕ → ℕ) → ℕ × (ℕ → ℕ)
copy_name_from source index zero destination = (index, destination)
copy_name_from source index (suc n) destination =
    let rest = copy_name_from source (index + 1) n (update destination index (source index)) in
    if not (source index == 0) then rest else (index, destination)

unfoldable pub copy_task_name : (ℕ → ℕ) → Option (ℕ → ℕ) → Bool × (ℕ → ℕ)
copy_task_name destination none = (false, destination)
copy_task_name destination (some source) =
    let (index, copied) = copy_name_from source 0 (name_max - 1) destination in
    if not (source index == 0) then (false, copied) else (true, update copied index 0)

-- The `n` rounds of the loop that are left at `index`.
unfoldable pub free_slot_from : Scheduler → ℕ → ℕ → Option ℕ
free_slot_from s index zero = none
free_slot_from s index (suc n) =
    let rest = free_slot_from s (index + 1) n in
    if not (test_bit s.pending_reap_mask index)
      && ((s.tasks index).state == task_terminated)
      && ((s.tasks index).stack_base == 0)
      && ((s.tasks index).frame == 0)
    then some index
    else rest

unfoldable pub find_task_slot : Scheduler → ℕ
find_task_slot s = elim (free_slot_from s 1 (s.task_count - 1)) [
  | some index ↦ index
  | none ↦ if ltb s.task_count max_tasks then s.task_count else max_tasks
]

unfoldable pub clear_task : Task
clear_task = record {
  name = λ index. 0;
  entry = 0;
  frame = 0;
  stack_base = 0;
  stack_frames = λ index. 0;
  stack_canary = 0;
  user_entry = 0;
  user_stack_top = 0;
  address_space = 0;
  mode = task_kernel;
  priority = default_priority;
  ticks_left = default_priority;
  switches = 0;
  state = task_terminated;
  task_id = 0;
}

unfoldable pub can_run : Task → Bool
can_run task = (task.state == task_runnable) && not (task.frame == 0)

-- The `n` rounds of the loop that are left at `offset`.
unfoldable pub next_from : Scheduler → ℕ → ℕ → ℕ
next_from s offset zero = max_tasks
next_from s offset (suc n) =
    let rest = next_from s (offset + 1) n in
    if can_run (s.tasks (add32 s.current_task offset % s.task_count))
    then add32 s.current_task offset % s.task_count
    else rest

unfoldable pub find_next_runnable : Scheduler → ℕ
find_next_runnable s = next_from s 1 s.task_count

unfoldable pub other_runnable_from : Scheduler → ℕ → ℕ → Bool
other_runnable_from s index zero = false
other_runnable_from s index (suc n) =
    let rest = other_runnable_from s (index + 1) n in
    if not (index == s.current_task) && can_run (s.tasks index) then true else rest

unfoldable pub has_other_runnable : Scheduler → Bool
has_other_runnable s = other_runnable_from s 0 s.task_count

unfoldable pub in_use_from : Scheduler → ℕ → ℕ → ℕ → Bool
in_use_from s address_space index zero = false
in_use_from s address_space index (suc n) =
    let rest = in_use_from s address_space (index + 1) n in
    if ((s.tasks index).mode == task_user)
      && not ((s.tasks index).state == task_terminated)
      && ((s.tasks index).address_space == address_space)
    then true
    else rest

unfoldable pub address_space_in_use : ℕ → Scheduler → Bool
address_space_in_use address_space s = in_use_from s address_space 1 (s.task_count - 1)

unfoldable pub set_task : ℕ → Task → Scheduler → Scheduler
set_task index task s = record s { tasks = update s.tasks index task }

unfoldable pub set_priority : ℕ → ℕ → Scheduler → Bool × Scheduler
set_priority index priority s =
    if (index == 0)
      || leb s.task_count index
      || (priority == 0)
      || ltb max_priority priority
      || s.scheduler_started
    then (false, s)
    else (
      true,
      set_task index (record (s.tasks index) { priority = priority; ticks_left = priority }) s,
    )

unfoldable pub block_task : ℕ → Scheduler → Bool × Scheduler
block_task index s =
    if (index == 0)
      || leb s.task_count index
      || s.scheduler_started
      || not ((s.tasks index).state == task_runnable)
      || ((s.tasks index).frame == 0)
    then (false, s)
    else (true, set_task index (record (s.tasks index) { state = task_blocked }) s)

-- scheduler_wake_task_unlocked
unfoldable pub wake_task : ℕ → Scheduler → Bool × Scheduler
wake_task index s =
    if (index == 0)
      || leb s.task_count index
      || not ((s.tasks index).state == task_blocked)
      || ((s.tasks index).frame == 0)
    then (false, s)
    else (
      true,
      set_task index
          (record (s.tasks index) { state = task_runnable; ticks_left = (s.tasks index).priority })
          s,
    )

-- The first task from `index` on, of `n`, with the identity.
unfoldable pub task_with_id_from : Scheduler → ℕ → ℕ → ℕ → Option ℕ
task_with_id_from s task_id index zero = none
task_with_id_from s task_id index (suc n) =
    let rest = task_with_id_from s task_id (index + 1) n in
    if (s.tasks index).task_id == task_id then some index else rest

unfoldable pub wake_task_id : ℕ → Scheduler → Bool × Scheduler
wake_task_id task_id s =
    if task_id == 0 then (false, s) else elim (task_with_id_from s task_id 1 (s.task_count - 1)) [
      | none ↦ (false, s)
      | some index ↦ wake_task index s
    ]

unfoldable pub wake_user_from : ℕ → ℕ → ℕ → Scheduler → ℕ × Scheduler
wake_user_from index zero woken s = (woken, s)
wake_user_from index (suc n) woken s =
    let (ok, after) = wake_task index s in
    let asleep = wake_user_from (index + 1) n woken s in
    let awake = wake_user_from (index + 1) n (add32 woken 1) after in
    if ((s.tasks index).mode == task_user) && ok then awake else asleep

unfoldable pub wake_user_tasks : Scheduler → ℕ × Scheduler
wake_user_tasks s = wake_user_from 1 (s.task_count - 1) 0 s

unfoldable pub active_user_from : Scheduler → ℕ → ℕ → ℕ → Bool
active_user_from s task_id index zero = false
active_user_from s task_id index (suc n) =
    let rest = active_user_from s task_id (index + 1) n in
    if ((s.tasks index).task_id == task_id)
      && ((s.tasks index).mode == task_user)
      && not ((s.tasks index).state == task_terminated)
      && not ((s.tasks index).frame == 0)
    then true
    else rest

unfoldable pub task_id_is_active_user : ℕ → Scheduler → Bool
task_id_is_active_user task_id s =
    if task_id == 0 then false else active_user_from s task_id 1 (s.task_count - 1)

unfoldable pub block_current : Scheduler → Bool × Scheduler
block_current s =
    if not s.scheduler_started
      || (s.current_task == 0)
      || leb s.task_count s.current_task
      || not ((s.tasks s.current_task).state == task_runnable)
      || not (has_other_runnable s)
    then (false, s)
    else (
      true,
      set_task s.current_task (record (s.tasks s.current_task) { state = task_blocked }) s,
    )

-- scheduler_start
unfoldable pub start : Scheduler → Scheduler
start s = record s {
  tasks = update s.tasks 0 (record (s.tasks 0) { state = task_terminated });
  scheduler_started = true;
}

unfoldable pub current_task_id : Scheduler → ℕ
current_task_id s = if leb s.task_count s.current_task then 0 else (s.tasks s.current_task).task_id

unfoldable pub blocked_from : Scheduler → ℕ → ℕ → ℕ → ℕ
blocked_from s index zero blocked = blocked
blocked_from s index (suc n) blocked =
    blocked_from s (index + 1) n
      (if (s.tasks index).state == task_blocked then add32 blocked 1 else blocked)

unfoldable pub blocked_count : Scheduler → ℕ
blocked_count s = blocked_from s 0 s.task_count 0

-- The other queries.
unfoldable pub task_name : ℕ → Scheduler → ℕ → ℕ
task_name index s = if leb s.task_count index then (λ i. 0) else (s.tasks index).name

unfoldable pub task_runs : ℕ → Scheduler → ℕ
task_runs index s = if leb s.task_count index then 0 else (s.tasks index).switches

unfoldable pub task_id_at : ℕ → Scheduler → ℕ
task_id_at index s = if leb s.task_count index then 0 else (s.tasks index).task_id
