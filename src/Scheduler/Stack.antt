-- ===== src/Scheduler/Stack.antt =====
-- The kernel stacks of tasks in process/scheduler.c: allocation, with its rollback, and removal. A panic
-- is `none`.
use efes_os.Base.{
  ℕ, zero, suc, ◌+◌, ◌-◌, ◌*◌, ◌/◌, ◌%◌, Bool, true, false, not, ◌&&◌, ◌||◌, List, [], ◌∷◌, Option,
  none, some, ◌==◌, if◌then◌else◌, bit_xor, ◌>>=◌,
}
use efes_os.Base.Arrays.{update}
use efes_os.Base.Words.{add32, sub32}
use efes_os.Base.Bitmap.{test_bit, clear_bit}
use efes_os.Scheduler.{Task, Scheduler, page_size, stack_pages, stack_stride, task_user}
use efes_os.Scheduler.Machine.{Machine}

abbrev pub stack_area : ℕ
stack_area = 0xC000_0000

abbrev pub canary_seed : ℕ
canary_seed = 0x51AC_CE55

abbrev pub flag_writable : ℕ
flag_writable = 2

-- sizeof(struct interrupt_frame)
abbrev pub frame_size : ℕ
frame_size = 68

-- The page of a stack, above its guard page.
unfoldable pub stack_page : ℕ → ℕ → ℕ
stack_page base index = add32 (add32 base page_size) (index * page_size % 0x1_0000_0000)

module _ {World : Type 0} (m : Machine World) where
  -- The `n` rounds of the loop that are left at `address`.
  unfoldable pub clear_words : ℕ → ℕ → World → World
  clear_words address zero w = w
  clear_words address (suc n) w = clear_words (add32 address 4) n (m.store address 0 w)

  unfoldable pub clear_kernel_page : ℕ → World → World
  clear_kernel_page address w = clear_words address (page_size / 4) w

  unfoldable pub free_unless_null : ℕ → World → World
  free_unless_null physical w = if physical == 0 then w else m.pmm_free_block physical w

  -- The pages below `index` are given back, the last one first.
  unfoldable pub unmap_stack : ℕ → ℕ → World → World
  unmap_stack base zero w = w
  unmap_stack base (suc index) w =
      let (physical, w') = m.paging_unmap_page (stack_page base index) w in
      unmap_stack base index (free_unless_null physical w')

  -- The `n` rounds of the loop that are left at `index`.
  unfoldable pub map_stack : ℕ → ℕ → ℕ → (ℕ → ℕ) → World → Bool × (ℕ → ℕ) × World
  map_stack base index zero frames w = (true, frames, w)
  map_stack base index (suc n) frames w =
      let (physical, w1) = m.pmm_alloc_block w in
      let (mapped, w2) =
        if physical == 0
        then (false, w1)
        else m.paging_map_page (stack_page base index) physical flag_writable w1 in
      let rest =
        map_stack base (index + 1) n (update frames index physical)
          (clear_kernel_page (stack_page base index) w2) in
      if (physical == 0) || not mapped
      then (false, frames, unmap_stack base index (free_unless_null physical w2))
      else rest

  unfoldable pub store_words : ℕ → List ℕ → World → World
  store_words address [] w = w
  store_words address (word ∷ words) w =
      store_words (add32 address 4) words (m.store address word w)

  -- The words of the first frame of a task, in the order of struct interrupt_frame.
  unfoldable pub first_frame : Task → List ℕ
  first_frame task =
      let segment = if task.mode == task_user then 0x23 else 0x10 in
      segment
      ∷ segment
      ∷ segment
      ∷ segment
      ∷ 0
      ∷ 0
      ∷ 0
      ∷ 0
      ∷ 0
      ∷ 0
      ∷ 0
      ∷ 0
      ∷ 0
      ∷ 0
      ∷ (if task.mode == task_user then task.user_entry else m.trampoline)
      ∷ (if task.mode == task_user then 0x1B else 0x08)
      ∷ 0x202
      ∷ []

  -- Behind the frame stand the stack pointer and the stack segment of a user task.
  unfoldable pub return_words : Task → List ℕ
  return_words task = if task.mode == task_user then task.user_stack_top ∷ 0x23 ∷ [] else []

  unfoldable pub frame_of : ℕ → ℕ
  frame_of base = sub32 (sub32 (add32 base stack_stride) frame_size) 8

  -- The stack of a task with all its pages.
  unfoldable pub dress_stack : Task → ℕ → ℕ → (ℕ → ℕ) → World → Task × World
  dress_stack task slot base frames w =
      let canary = bit_xor (bit_xor canary_seed base) slot in
      let frame = frame_of base in
      (
        record task {
          stack_base = base;
          stack_frames = frames;
          stack_canary = canary;
          frame = frame;
        },
        store_words (add32 frame frame_size) (return_words task)
            (store_words frame (first_frame task) (m.store (add32 base page_size) canary w)),
      )

  unfoldable pub allocate_task_stack : Task → ℕ → World → Bool × Task × World
  allocate_task_stack task slot w =
      let base = add32 stack_area (slot * stack_stride % 0x1_0000_0000) in
      let (ok, frames, w') = map_stack base 0 stack_pages task.stack_frames w in
      let (dressed, w'') = dress_stack task slot base frames w' in
      if not ok
      then (false, record task { stack_base = 0; stack_frames = frames }, w')
      else (true, dressed, w'')

  -- false: panic
  unfoldable pub verify_stack_canary : Task → World → Bool
  verify_stack_canary task w =
      if task.stack_base == 0
      then true
      else not (task.stack_canary == 0)
        && (m.load (add32 task.stack_base page_size) w == task.stack_canary)

  -- The `n` rounds of the loop that are left at `index`.
  unfoldable pub reap_frames : ℕ → ℕ → ℕ → (ℕ → ℕ) → World → Option ((ℕ → ℕ) × World)
  reap_frames base index zero frames w = some (frames, w)
  reap_frames base index (suc n) frames w =
      let (physical, w') = m.paging_unmap_page (stack_page base index) w in
      let rest =
        reap_frames base (index + 1) n (update frames index 0) (m.pmm_free_block physical w') in
      if (frames index == 0) || not (physical == frames index) then none else rest

  unfoldable pub reap_task_stack : Task → ℕ → World → Option (Task × ℕ × World)
  reap_task_stack task stack_reap_count w =
      if task.stack_base == 0
      then some (task, stack_reap_count, w)
      else if not (verify_stack_canary task w) || m.paging_is_mapped task.stack_base w
      then none
      else do
        (frames, w') ← reap_frames task.stack_base 0 stack_pages task.stack_frames w
        some (
          record task { stack_frames = frames; stack_base = 0; frame = 0 },
          add32 stack_reap_count 1,
          w',
        )

  unfoldable pub is_pending : Scheduler → ℕ → Bool
  is_pending s index = test_bit s.pending_reap_mask index && not (index == s.current_task)

  unfoldable pub any_pending_from : Scheduler → ℕ → ℕ → Bool
  any_pending_from s index zero = false
  any_pending_from s index (suc n) = is_pending s index || any_pending_from s (index + 1) n

  -- The `n` rounds of the second loop that are left at `index`.
  unfoldable pub reap_from : ℕ → ℕ → Scheduler → World → Option (Scheduler × World)
  reap_from index zero s w = some (s, w)
  reap_from index (suc n) s w =
      let next : Option (Scheduler × World) =
        reap_task_stack (s.tasks index) s.stack_reap_count w >>= (λ (o : Task × ℕ × World).
          reap_from (index + 1) n
            (record s {
              tasks = update s.tasks index o.0;
              stack_reap_count = o.1;
              pending_reap_mask = clear_bit s.pending_reap_mask index;
            })
            o.2) in
      let later = reap_from (index + 1) n s w in if is_pending s index then next else later

  unfoldable pub reap_pending_stacks : Scheduler → World → Option (Scheduler × World)
  reap_pending_stacks s w =
      let current_directory = m.paging_current_directory w in
      let kernel_directory = m.paging_kernel_directory w in
      let switching =
        any_pending_from s 1 (s.task_count - 1) && not (current_directory == kernel_directory) in
      let (entered, w1) =
        if switching then m.paging_switch_address_space kernel_directory w else (true, w) in
      if not entered then none else do
        (s', w2) ← reap_from 1 (s.task_count - 1) s w1
        let (restored, w3) =
            if switching then m.paging_switch_address_space current_directory w2 else (true, w2)
        if not restored then none else some (s', w3)
