-- ===== src/Scheduler/Purging.antt =====
-- No message of a user task stays in the queue of kernel/ipc.c after its end in process/scheduler.c.
use mathlib.Core.Option.{some-injective, none-ne-some}
use efes_os.Base.{
  subst, keep, ◌<◌, ℕ, ◌≡◌, sym, ap, ◌∙◌, Bool, true, false, not, ◌||◌, some, Option-cases, inl,
  inr, ◌==◌, arith,
}
use efes_os.Ipc.Inv.{IsValid, contents, purge_receiver-IsValid, purge_field-IsValid}
use efes_os.Ipc.Fifo.{Envelope}
use efes_os.Ipc.Purge.{purge_receiver_refines, purge_sender_refines}
use efes_os.Ipc.{Ipc, purge_receiver, purge_sender}
use efes_os.Scheduler.{Scheduler, current_task_id, task_terminated, set_task}
use efes_os.Scheduler.Machine.{Machine}
use efes_os.Scheduler.Switch.{System, current, end_current, ended, purged}

module _ {World : Type 0} (m : Machine World) where
  end_current-ended :
      (x y : System World) (ok : Bool)
      → end_current m x ≡ some (ok, y)
      → (y.scheduler ≡ ended m x.scheduler) × (y.ipc ≡ purged m (current_task_id x.scheduler) x.ipc)
  unfolding end_current
  end_current-ended x y ok e =
      elim (Option-cases (
        m.user_process_reap_task x.scheduler.current_task (current_task_id (ended m x.scheduler))
          x.world)) [
            | inl r ↦ absurd (none-ne-some (ok, y) (rw (end_current, r) at e))
            | inr ((fine, w), r) ↦
                let p : ◌≡◌ {A = Bool × System World}
                    (
                      fine,
                      record {
                        scheduler = ended m x.scheduler;
                        ipc = purged m (current_task_id x.scheduler) x.ipc;
                        world = w;
                      },
                    )
                    (ok, y) =
                  some-injective _ (ok, y) (rw (end_current, r) at e) in
                (
                  sym (ap (λ (o : Bool × System World). o.1.scheduler) p),
                  sym (ap (λ (o : Bool × System World). o.1.ipc) p),
                )
          ]

  purged-contents :
      (id : ℕ) (q : Ipc)
      → IsValid q
      → 0 < id
      → contents (purged m id q)
        ≡ keep (λ e. not (e.sender_id == id)) (keep (λ e. not (e.receiver_id == id)) (contents q))
  unfolding purged
  purged-contents id q v pos =
      let real : (id == 0) ≡ false = ground arith in
      let first : contents (purge_receiver id q).1
          ≡ keep (λ (e : Envelope). id == 0 || not (e.receiver_id == id)) (contents q) =
        (purge_receiver_refines id v).0 in
      let second : contents (purge_sender id (purge_receiver id q).1).1
          ≡ keep (λ (e : Envelope). id == 0 || not (e.sender_id == id))
              (contents (purge_receiver id q).1) =
        (purge_sender_refines id (purge_receiver-IsValid id v)).0 in
      rw real at second ∙ ap (keep (λ (e : Envelope). not (e.sender_id == id))) (rw real at first)

  -- After the end of a current user task with an identity, the queue of messages holds exactly those
  -- that were neither sent by the task nor for it, in their order, and stays well formed; the task is
  -- terminated.
  pub end_current-purges :
      (x y : System World) (ok : Bool)
      → IsValid x.ipc
      → 0 < current_task_id x.scheduler
      → end_current m x ≡ some (ok, y)
      → (contents y.ipc
          ≡ keep
              (λ e. not (e.sender_id == current_task_id x.scheduler))
              (keep (λ e. not (e.receiver_id == current_task_id x.scheduler)) (contents x.ipc)))
        × IsValid y.ipc
        × ((y.scheduler.tasks x.scheduler.current_task).state ≡ task_terminated)
  unfolding purged purge_sender ended current set_task
  end_current-purges x y ok v pos e =
      let id = current_task_id x.scheduler in
      let (at, queue) = end_current-ended x y ok e in
      (
        ap contents queue ∙ purged-contents id x.ipc v pos,
        subst IsValid (sym queue) (purge_field-IsValid id true (purge_receiver-IsValid id v)),
        ap (λ (s : Scheduler). (s.tasks x.scheduler.current_task).state) at ∙ ground arith,
      )
