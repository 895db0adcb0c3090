-- ===== src/Scheduler/Ending.antt =====
-- The end of a user task in process/scheduler.c: the calls that it leads to come to an end.
use mathlib.Core.Option.{some-injective, none-ne-some}
use efes_os.Base.{
  ℕ, zero, suc, ◌+◌, ◌-◌, ◌≡◌, refl, sym, ap, ◌∙◌, Bool, true, false, not, ◌&&◌, ◌||◌, Option, none,
  some, Option-cases, Bool-cases, inl, inr, if_each, if_both, ◌==◌, leb, if◌then◌else◌, arith,
}
use efes_os.Base.Arrays.{update}
use efes_os.Base.Bitmap.{clear_bit}
use efes_os.Ipc.{Ipc}
use efes_os.Scheduler.{Task, Scheduler, current_task_id, task_user, task_runnable, set_task}
use efes_os.Scheduler.Machine.{Machine}
use efes_os.Scheduler.Stack.{
  reap_from, reap_pending_stacks, reap_task_stack, is_pending, verify_stack_canary,
  any_pending_from,
}
use efes_os.Scheduler.Switch.{
  System, Outcome, current, choose, enter, switch_from, is_faulting, end_current, end_user, ended,
  purged, save_current, schedule_from_frame,
}

module _ {World : Type 0} (m : Machine World) where
  -- The current task is the same, and has not changed.
  abbrev SameCurrent : Scheduler → Option (Scheduler × World) → Type 0
  SameCurrent s o =
      (s' : Scheduler) (w' : World)
      → o ≡ some (s', w')
      → (s'.current_task ≡ s.current_task) × (s'.tasks s.current_task ≡ s.tasks s.current_task)

  reap_from-SameCurrent :
      (index n : ℕ) (s : Scheduler) (w : World) → SameCurrent s (reap_from m index n s w)
  unfolding reap_from is_pending
  reap_from-SameCurrent index zero s w = λ s' w' e.
      let p : (s, w) ≡ (s', w') = some-injective (s, w) (s', w') e in
      (
        sym (ap (λ (o : Scheduler × World). o.0.current_task) p),
        sym (ap (λ (o : Scheduler × World). o.0.tasks s.current_task) p),
      )
  reap_from-SameCurrent index (suc n) s w =
      if_each (SameCurrent s) (is_pending m s index) _ _
        (λ pending. elim (Option-cases (reap_task_stack m (s.tasks index) s.stack_reap_count w)) [
          | inl e ↦ rw e (λ s' w' h. absurd (none-ne-some (s', w') h))
          | inr ((task, count, w1), e) ↦ rw e (λ s' w' h.
              let rest =
                reap_from-SameCurrent (index + 1) n
                  (record s {
                    tasks = update s.tasks index task;
                    stack_reap_count = count;
                    pending_reap_mask = clear_bit s.pending_reap_mask index;
                  })
                  w1 s' w' h in
              (rest.0, rest.1 ∙ other index task pending))
        ])
        (λ settled. reap_from-SameCurrent (index + 1) n s w)
    where
      other :
          (i : ℕ) (task : Task)
          → is_pending m s i ≡ true
          → update s.tasks i task s.current_task ≡ s.tasks s.current_task
      other i task pending = ground arith

  reap_pending_stacks-SameCurrent :
      (s : Scheduler) (w : World) → SameCurrent s (reap_pending_stacks m s w)
  unfolding reap_pending_stacks
  reap_pending_stacks-SameCurrent s w =
      if_each (SameCurrent s) (not entered.0) none _
        (λ out s' w' h. absurd (none-ne-some (s', w') h))
        (λ inside. elim (Option-cases (reap_from m 1 (s.task_count - 1) s entered.1)) [
          | inl e ↦ rw e (λ s' w' h. absurd (none-ne-some (s', w') h))
          | inr ((reaped, w2), e) ↦ rw e (
              if_each (SameCurrent s) (not (restored w2).0) none (some (reaped, (restored w2).1))
                (λ out s' w' h. absurd (none-ne-some (s', w') h))
                (λ back s' w' h.
                  reap_from-SameCurrent 1 (s.task_count - 1) s entered.1 s' w2
                    (e ∙ ap (λ (r : Scheduler). some (r, w2)) (left h))))
        ])
    where
      switching : Bool
      switching =
          any_pending_from m s 1 (s.task_count - 1)
          && not (m.paging_current_directory w == m.paging_kernel_directory w)

      entered : Bool × World
      entered =
          if switching
          then m.paging_switch_address_space (m.paging_kernel_directory w) w
          else (true, w)

      restored : World → Bool × World
      restored w2 =
          if switching
          then m.paging_switch_address_space (m.paging_current_directory w) w2
          else (true, w2)

      left :
          {r s' : Scheduler} {w3 w' : World}
          → ◌≡◌ {A = Option (Scheduler × World)} (some (r, w3)) (some (s', w'))
          → r ≡ s'
      left {r} {s'} {w3} {w'} h =
          ap (λ (o : Scheduler × World). o.0) (some-injective (r, w3) (s', w') h)

  abbrev pub finished : Outcome World → Bool
  finished (Outcome.returned frame x) = true
  finished Outcome.panicked = true
  finished Outcome.unfinished = false

  Idle : System World → Type 0
  Idle x = ((current m x.scheduler).state == task_runnable) ≡ false

  Idle-not_faulting :
      (frame : ℕ) (x : System World) (s' : Scheduler) (w' : World)
      → Idle x
      → reap_pending_stacks m x.scheduler x.world ≡ some (s', w')
      → is_faulting m frame (record x { scheduler = s'; world = w' }) ≡ false
  unfolding is_faulting current Idle
  Idle-not_faulting frame x s' w' idle e =
      let same = reap_pending_stacks-SameCurrent x.scheduler x.world s' w' e in
      let state : (s'.tasks s'.current_task).state
          ≡ (x.scheduler.tasks x.scheduler.current_task).state =
        ap (λ i. (s'.tasks i).state) same.0 ∙ ap (λ (t : Task). t.state) same.1 in
      rw state (ground arith)

  -- A current task that does not run does not fault: the fuel behind the first round is not used.
  schedule_from_frame-Idle :
      (fuel frame : ℕ) (x : System World)
      → Idle x
      → schedule_from_frame m (suc fuel) frame true x ≡ schedule_from_frame m 1 frame true x
  unfolding schedule_from_frame
  schedule_from_frame-Idle fuel frame x idle =
      elim (Option-cases (reap_pending_stacks m x.scheduler x.world)) [
        | inl e ↦ rw e refl
        | inr ((s', w'), e) ↦ rw (e, Idle-not_faulting frame x s' w' idle e) refl
      ]

  choose-finished : (frame : ℕ) (x : System World) → finished (choose m frame x) ≡ true
  unfolding choose enter
  choose-finished frame x = ground arith

  switch_from-finished :
      (frame : ℕ) (force : Bool) (x : System World) → finished (switch_from m frame force x) ≡ true
  unfolding switch_from
  switch_from-finished frame force x =
      if_both Ends _ (Outcome.returned frame _) (choose m frame (save_current m frame x)) refl
        (choose-finished frame (save_current m frame x))
    where
      Ends : Outcome World → Type 0
      Ends o = finished o ≡ true

  ended-Idle :
      (s : Scheduler) (ipc : Ipc) (w : World)
      → Idle (record { scheduler = ended m s; ipc = ipc; world = w })
  unfolding ended Idle current set_task
  ended-Idle s ipc w = ground arith

  -- Whatever is called after the end of a task finds the task idle.
  end_user-Idle :
      (P : Outcome World → Outcome World → Type 0) (f g : ℕ → Bool → System World → Outcome World)
      (frame : ℕ) (x : System World)
      → ((o : Outcome World) → finished o ≡ true → P o o)
      → ((y : System World) → Idle y → P (f frame true y) (g frame true y))
      → P (end_user m f frame x) (end_user m g frame x)
  unfolding end_user end_current
  end_user-Idle P f g frame x same idle =
      elim (Bool-cases (
        not x.scheduler.scheduler_started
        || leb x.scheduler.task_count x.scheduler.current_task
        || not ((current m x.scheduler).mode == task_user))) [
          | inl e ↦ rw e (same (Outcome.returned frame x) refl)
          | inr e ↦
              rw e
                (elim (Option-cases (
                  m.user_process_reap_task x.scheduler.current_task
                    (current_task_id (ended m x.scheduler)) x.world)) [
                      | inl r ↦ rw r (same Outcome.panicked refl)
                      | inr ((ok, w), r) ↦ rw r (elim (Bool-cases ok) [
                        | inl fine ↦ rw fine (
                            idle
                              (record {
                                scheduler = ended m x.scheduler;
                                ipc = purged m (current_task_id x.scheduler) x.ipc;
                                world = w;
                              })
                              (ended-Idle x.scheduler (purged m (current_task_id x.scheduler) x.ipc)
                                w))
                        | inr lost ↦ rw lost (same Outcome.panicked refl)
                      ])
                    ])
        ]

  -- The first round, given what happens after a fault.
  schedule_from_frame-rounds :
      (P : Outcome World → Outcome World → Type 0) (n k : ℕ) (frame : ℕ) (force : Bool)
      (x : System World)
      → ((o : Outcome World) → finished o ≡ true → P o o)
      → ((y : System World)
          → Idle y
          → P (schedule_from_frame m n frame true y) (schedule_from_frame m k frame true y))
      → P
          (schedule_from_frame m (suc n) frame force x)
          (schedule_from_frame m (suc k) frame force x)
  unfolding schedule_from_frame
  schedule_from_frame-rounds P n k frame force x same idle =
      elim (Bool-cases
        (not x.scheduler.scheduler_started || (x.scheduler.task_count == 0) || (frame == 0))) [
          | inl e ↦ rw e (same (Outcome.returned frame x) refl)
          | inr e ↦
              rw e
                (elim (Bool-cases (not (verify_stack_canary m (current m x.scheduler) x.world))) [
                  | inl bad ↦ rw bad (same Outcome.panicked refl)
                  | inr good ↦
                      rw good (elim (Option-cases (reap_pending_stacks m x.scheduler x.world)) [
                        | inl r ↦ rw r (same Outcome.panicked refl)
                        | inr ((s', w), r) ↦ rw r (after (record x { scheduler = s'; world = w }))
                      ])
                ])
        ]
    where
      after :
          (y : System World)
          → P
              (if is_faulting m frame y
                then end_user m (schedule_from_frame m n) frame y
                else switch_from m frame force y)
              (if is_faulting m frame y
                then end_user m (schedule_from_frame m k) frame y
                else switch_from m frame force y)
      after y = elim (Bool-cases (is_faulting m frame y)) [
        | inl e ↦
            rw e (
              end_user-Idle P (schedule_from_frame m n) (schedule_from_frame m k) frame y same idle)
        | inr e ↦ rw e (same (switch_from m frame force y) (switch_from-finished frame force y))
      ]

  -- The rounds of an idle task's system end.
  schedule_from_frame-finished :
      (frame : ℕ) (x : System World)
      → Idle x
      → finished (schedule_from_frame m 1 frame true x) ≡ true
  unfolding schedule_from_frame
  schedule_from_frame-finished frame x idle =
      elim (Option-cases (reap_pending_stacks m x.scheduler x.world)) [
        | inl e ↦ rw e (ground arith)
        | inr ((s', w'), e) ↦
            rw (e, Idle-not_faulting frame x s' w' idle e)
              (ground
                (arith, switch_from-finished frame true (record x { scheduler = s'; world = w' })))
      ]

  -- The calls that an interrupt leads to come to an end, whatever faults: two rounds are enough, and
  -- with more fuel the outcome is the same.
  pub schedule_from_frame-enough :
      (fuel frame : ℕ) (force : Bool) (x : System World)
      → (schedule_from_frame m (suc (suc fuel)) frame force x
          ≡ schedule_from_frame m 2 frame force x)
        × (finished (schedule_from_frame m 2 frame force x) ≡ true)
  schedule_from_frame-enough fuel frame force x = (
    schedule_from_frame-rounds (λ a b. a ≡ b) (suc fuel) 1 frame force x (λ o h. refl)
        (λ y idle. schedule_from_frame-Idle fuel frame y idle),
    schedule_from_frame-rounds (λ a b. finished a ≡ true) 1 1 frame force x (λ o h. h)
        (λ y idle. schedule_from_frame-finished frame y idle),
  )
