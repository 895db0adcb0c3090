-- ===== src/Scheduler/Add.antt =====
-- New tasks in process/scheduler.c.
use efes_os.Base.{
  ℕ, ◌-◌, ◌*◌, ◌%◌, Bool, true, false, not, ◌&&◌, ◌||◌, Option, none, some, ◌==◌, ltb, leb, get_or,
  if◌then◌else◌, bit_or, bit_and,
}
use efes_os.Base.Arrays.{update}
use efes_os.Base.Words.{add32, sub32}
use efes_os.Base.Strings.{codes}
use efes_os.Scheduler.{
  Task, Scheduler, task_user, task_runnable, max_tasks, max_generation, page_size, find_task_slot,
  clear_task, copy_task_name, address_space_in_use,
}
use efes_os.Scheduler.Machine.{Machine}
use efes_os.Scheduler.Stack.{allocate_task_stack}

module _ {World : Type 0} (m : Machine World) where
  -- "kernel"
  unfoldable pub kernel_name : ℕ → ℕ
  kernel_name index = get_or (codes "kernel") index 0

  unfoldable pub init : Scheduler → World → Scheduler
  init s w = record {
    tasks = λ index.
        if index == 0
        then record clear_task {
          name = (copy_task_name (λ i. 0) (some kernel_name)).1;
          state = task_runnable;
          address_space = m.paging_kernel_directory w;
          task_id = 0;
        }
        else if ltb index max_tasks
        then clear_task
        else s.tasks index;
    task_count = 1;
    current_task = 0;
    scheduler_started = false;
    pending_reap_mask = 0;
    stack_reap_count = 0;
    last_added_task = max_tasks;
    slot_generation = λ index. if ltb index max_tasks then 0 else s.slot_generation index;
  }

  -- The next generation of a slot.
  unfoldable pub next_generation : ℕ → ℕ
  next_generation generation =
      if add32 generation 1 == 0 then add32 (add32 generation 1) 1 else add32 generation 1

  -- The slot becomes a task with an identity and a stack; without a stack it is cleared again.
  unfoldable pub install : ℕ → Task → Scheduler → World → Bool × Scheduler × World
  install slot task s w =
      let generation = next_generation (s.slot_generation slot) in
      let id = bit_or (generation * 256 % 0x1_0000_0000) slot in
      let generations = update s.slot_generation slot generation in
      let (ok, dressed, w') = allocate_task_stack m (record task { task_id = id }) slot w in
      if not ok
      then (
        false,
        record s { tasks = update s.tasks slot clear_task; slot_generation = generations },
        w',
      )
      else (
        true,
        record s {
          tasks = update s.tasks slot dressed;
          slot_generation = generations;
          task_count = if slot == s.task_count then add32 s.task_count 1 else s.task_count;
          last_added_task = slot;
        },
        w',
      )

  -- A cleared slot with the name, where it fits.
  unfoldable pub named : ℕ → Option (ℕ → ℕ) → Scheduler → Bool × Task × Scheduler
  named slot name s =
      let (ok, copied) = copy_task_name (λ i. 0) name in
      let task = record clear_task { name = copied } in
      (ok, task, record s { tasks = update s.tasks slot task })

  unfoldable pub add_task : Option (ℕ → ℕ) → ℕ → Scheduler → World → Bool × Scheduler × World
  add_task none task s w = (false, s, w)
  add_task (some name) task s w =
      let slot = find_task_slot s in
      let (ok, cleared, s') = named slot (some name) s in
      if task == 0
      then (false, s, w)
      else if (slot == max_tasks) || leb max_generation (s.slot_generation slot)
      then (false, s, w)
      else if not ok
      then (false, s', w)
      else install slot
          (record cleared {
            entry = task;
            address_space = m.paging_kernel_directory w;
            state = task_runnable;
          })
          s' w

  abbrev pub user_min_address : ℕ
  user_min_address = 0x0040_0000

  abbrev pub user_address_limit : ℕ
  user_address_limit = 0xC000_0000

  unfoldable pub user_task_is_valid : ℕ → ℕ → ℕ → World → Bool
  user_task_is_valid entry user_stack_top address_space w =
      leb user_min_address entry
      && ltb entry user_address_limit
      && leb user_min_address user_stack_top
      && leb user_stack_top user_address_limit
      && (bit_and user_stack_top (page_size - 1) == 0)
      && m.paging_address_space_is_valid address_space w
      && not (address_space == m.paging_kernel_directory w)
      && (m.paging_current_directory w == m.paging_kernel_directory w)

  -- The slot for a user task whose context is valid.
  unfoldable pub place_user :
      Option (ℕ → ℕ) → ℕ → ℕ → ℕ → Scheduler → World → Bool × Scheduler × World
  place_user name entry user_stack_top address_space s w =
      let slot = find_task_slot s in
      let (ok, cleared, s') = named slot name s in
      if (slot == max_tasks)
        || address_space_in_use address_space s
        || leb max_generation (s.slot_generation slot)
      then (false, s, w)
      else if not ok
      then (false, s', w)
      else install slot
          (record cleared {
            user_entry = entry;
            user_stack_top = user_stack_top;
            address_space = address_space;
            mode = task_user;
            state = task_runnable;
          })
          s' w

  -- A panic is `none`.
  unfoldable pub add_user_task_in_space :
      Option (ℕ → ℕ) → ℕ → ℕ → ℕ → Scheduler → World → Option (Bool × Scheduler × World)
  add_user_task_in_space none entry user_stack_top address_space s w = some (false, s, w)
  add_user_task_in_space (some name) entry user_stack_top address_space s w =
      let (entered, w1) = m.paging_switch_address_space address_space w in
      let context_is_valid =
        m.paging_validate_user_execute entry w1
        && m.paging_validate_user_range (sub32 user_stack_top page_size) page_size true w1 in
      let (restored, w2) = m.paging_switch_address_space (m.paging_kernel_directory w1) w1 in
      if not (user_task_is_valid entry user_stack_top address_space w)
      then some (false, s, w)
      else if not entered
      then some (false, s, w1)
      else if not restored
      then none
      else if not context_is_valid
      then some (false, s, w2)
      else some (place_user (some name) entry user_stack_top address_space s w2)

  unfoldable pub add_user_task :
      Option (ℕ → ℕ) → ℕ → ℕ → Scheduler → World → Option (Bool × Scheduler × World)
  add_user_task name entry user_stack_top s w =
      add_user_task_in_space name entry user_stack_top (m.paging_current_directory w) s w
