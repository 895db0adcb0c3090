-- ===== src/Scheduler/Tests.antt =====
-- Tasks on a machine of words, and the theorems there.
use efes_os.Base.{
  ℕ, ◌+◌, ◌%◌, ◌≡◌, inl, refl, true, false, not, ◌&&◌, some, ◌==◌, ltb, if◌then◌else◌, arith, keep,
}
use efes_os.Base.Arrays.{update}
use efes_os.Ipc.{Ipc, Message}
use efes_os.Ipc.Inv.{IsValid, contents}
use efes_os.Scheduler.{
  Task, Scheduler, clear_task, can_run, find_next_runnable, next_from, current_task_id,
  wake_task_id, wake_task,
}
use efes_os.Scheduler.Machine.{Machine}
use efes_os.Scheduler.Switch.{System, schedule_from_frame, end_current, ended, purged}
use efes_os.Scheduler.Add.{init}
use efes_os.Scheduler.Choice.{Sound, Fair, find_next_runnable-Fair}
use efes_os.Scheduler.Ending.{schedule_from_frame-enough, finished}
use efes_os.Scheduler.Purging.{end_current-purges}
use efes_os.Scheduler.Identity.{HasIdentities, wake_task_id_lem}

abbrev Memory : Type 0
Memory = ℕ → ℕ

abbrev machine : Machine Memory
machine = record {
  pmm_alloc_block = λ w. (0x10_0000, w);
  pmm_free_block = λ block w. w;
  paging_map_page = λ page block flags w. (true, w);
  paging_unmap_page = λ page w. (0x10_0000, w);
  paging_is_mapped = λ page w. false;
  paging_current_directory = λ w. 0x2000;
  paging_kernel_directory = λ w. 0x2000;
  paging_switch_address_space = λ space w. (true, w);
  paging_address_space_is_valid = λ space w. true;
  paging_validate_user_execute = λ address w. not (address == 0);
  paging_validate_user_range = λ address size writable w. true;
  user_process_reap_task = λ index id w. some (true, w);
  load = λ address w. w address;
  store = λ address word w. update w address word;
  trampoline = 0x1234;
}

abbrev cold : Scheduler
cold = record {
  tasks = λ index. clear_task;
  task_count = 9;
  current_task = 4;
  scheduler_started = true;
  pending_reap_mask = 6;
  stack_reap_count = 0;
  last_added_task = 0;
  slot_generation = λ index. 0;
}

abbrev zeroes : Memory
zeroes address = 0

abbrev booted : Scheduler
booted = init machine cold zeroes

booted-HasIdentities : HasIdentities booted
unfolding init clear_task
booted-HasIdentities = record {
  few = omega arith;
  generations = λ slot. ground arith;
  identities = λ slot. inl (ground arith);
}

abbrev letter : ℕ → ℕ
letter i = if i == 0 then 65 else 0

wake_task_id_lem_example : wake_task_id 0x103 booted ≡ (
    if not (0x103 == 0)
      && not (0x103 % 256 == 0)
      && ltb (0x103 % 256) booted.task_count
      && ((booted.tasks (0x103 % 256)).task_id == 0x103)
    then wake_task (0x103 % 256) booted
    else (false, booted))
wake_task_id_lem_example = wake_task_id_lem 0x103 booted booted-HasIdentities

-- Three tasks; the second is a user task with the identity 0x101, and the third one may run.
abbrev task_in : ℕ → Task
task_in index = record clear_task {
  mode = if index == 1 then 1 else 0;
  state = if index == 0 then 1 else 0;
  frame = 0xC000_0000 + index;
  task_id = if index == 1 then 0x101 else 0x102;
}

abbrev running : Scheduler
running = record cold { tasks = task_in; task_count = 3; current_task = 1; pending_reap_mask = 0 }

abbrev message : ℕ → ℕ → Message
message sender receiver = record {
  sender_id = sender;
  receiver_id = receiver;
  type = 1;
  length = 2;
  bytes = letter;
}

-- A message from the task, one for it and one between others.
abbrev queue : Ipc
queue = record {
  queue = λ i.
      if i == 0
      then message 0x101 0x102
      else if i == 1
      then message 0x102 0x101
      else message 0x102 0x103;
  head = 3;
  tail = 0;
  count = 3;
}

queue-IsValid : IsValid queue
queue-IsValid = record {
  tail_in = omega arith;
  bounded = omega arith;
  head_at = omega arith;
  fits = λ i. ground arith;
}

abbrev system : System Memory
system = record { scheduler = running; ipc = queue; world = zeroes }

running-Sound : Sound running
running-Sound = record { some_task = omega arith; few = omega arith; is_task = omega arith }

find_next_runnable-Fair_example : Fair running running-Sound 2 (find_next_runnable running)
unfolding can_run clear_task
find_next_runnable-Fair_example = find_next_runnable-Fair running running-Sound 2 (omega arith) refl

next_is_third : find_next_runnable running ≡ 2
unfolding find_next_runnable next_from can_run clear_task
next_is_third = refl

schedule_from_frame-enough_example :
    (schedule_from_frame machine 5 0xC000_0100 false system
      ≡ schedule_from_frame machine 2 0xC000_0100 false system)
    × (finished machine (schedule_from_frame machine 2 0xC000_0100 false system) ≡ true)
schedule_from_frame-enough_example = schedule_from_frame-enough machine 3 0xC000_0100 false system

abbrev after : System Memory
after = record {
  scheduler = ended machine running;
  ipc = purged machine (current_task_id running) queue;
  world = zeroes;
}

end_current_test : end_current machine system ≡ some (true, after)
unfolding end_current
end_current_test = refl

end_current-purges_example :
    (contents after.ipc
      ≡ keep
          (λ e. not (e.sender_id == current_task_id running))
          (keep (λ e. not (e.receiver_id == current_task_id running)) (contents queue)))
    × IsValid after.ipc
    × ((after.scheduler.tasks running.current_task).state ≡ 1)
unfolding current_task_id clear_task
end_current-purges_example =
    end_current-purges machine system after true queue-IsValid (omega arith) end_current_test
