-- ===== src/Ipc/Inv.antt =====
-- The invariant of the message ring of kernel/ipc.c, and that each operation keeps it.
use efes_os.Base.{
  ℕ, zero, suc, ◌+◌, ◌-◌, ◌≤◌, ◌<◌, ◌≡◌, refl, Bool, Option, arith, ltb, ◌==◌, List, ltb→lt,
  if_both, if_each,
}
use efes_os.Base.Arrays.{slice}
use efes_os.Ipc.{
  Ipc, Message, Outputs, init, send_from_to, receive_for, first_match, purge_from, purge_receiver,
  purge_field, drop_at, pointed, enqueue, dequeue, take_at, position,
}
use efes_os.Ipc.Fifo.{Envelope}
use efes_os.Ipc.Slots.{Fits, nth, update-Fits, move_up-Fits, close_gap-Fits}

pub record IsValid (s : Ipc) : Type 0 where
  pub tail_in : s.tail < 16
  pub bounded : s.count ≤ 16
  pub head_at : s.head ≡ position s.tail s.count
  pub fits : Fits s.queue

-- The pending messages, oldest first.
unfoldable pub contents : Ipc → List Envelope
contents s = slice (nth s.queue s.tail) 0 s.count

pub init-IsValid : (s : Ipc) → Fits s.queue → IsValid (init s)
unfolding init
init-IsValid s f = record {
  tail_in = omega arith;
  bounded = omega arith;
  head_at = omega arith;
  fits = f;
}

enqueue-IsValid :
    {s : Ipc} (sender receiver type : ℕ) (source : ℕ → ℕ) (n : ℕ)
    → IsValid s
    → n ≤ 64
    → s.count < 16
    → IsValid (enqueue sender receiver type source n s)
unfolding enqueue
enqueue-IsValid {s} sender receiver type source n v fit room = record {
  tail_in = v.tail_in;
  bounded = omega (arith, room);
  head_at = omega (arith, v.head_at);
  fits = update-Fits s.queue s.head _ v.fits fit;
}

pub send-IsValid :
    {s : Ipc} (sender receiver type : ℕ) (source : Option (ℕ → ℕ)) (n : ℕ)
    → IsValid s
    → IsValid (send_from_to sender receiver type source n s).2
unfolding send_from_to
send-IsValid {s} sender receiver type source n v =
    ground (arith, enqueue-IsValid {s = s} sender receiver type (pointed source) n v)

dequeue-IsValid : {s : Ipc} (offset : ℕ) → IsValid s → offset < s.count → IsValid (dequeue offset s)
unfolding dequeue
dequeue-IsValid {s} offset v h = record {
  tail_in = omega arith;
  bounded = omega (arith, v.bounded);
  head_at = omega (arith, v.head_at, v.tail_in, v.bounded);
  fits = move_up-Fits offset (position s.tail offset) s.queue v.fits;
}

take_at-IsValid :
    {s : Ipc} (offset capacity : ℕ) (out : Outputs)
    → IsValid s
    → offset < s.count
    → IsValid (take_at offset capacity out s).2
unfolding take_at
take_at-IsValid {s} offset capacity out v h = ground (arith, dequeue-IsValid {s = s} offset v h)

first_match-le :
    (n offset tail : ℕ) (queue : ℕ → Message) (receiver : ℕ)
    → first_match n offset tail queue receiver ≤ offset + n
unfolding first_match
first_match-le zero offset tail queue receiver = omega arith
first_match-le (suc n) offset tail queue receiver =
    ground (arith, first_match-le n (offset + 1) tail queue receiver)

pub receive-IsValid :
    {s : Ipc} (receiver capacity : ℕ) (out : Outputs)
    → IsValid s
    → IsValid (receive_for receiver capacity out s).2
unfolding receive_for
receive-IsValid {s} receiver capacity out v = ground (
  arith,
  first_match-le s.count 0 s.tail s.queue receiver,
  take_at-IsValid {s = s} (first_match s.count 0 s.tail s.queue receiver) capacity out v,
)

pub drop_at-IsValid :
    {s : Ipc} (offset : ℕ) → IsValid s → offset < s.count → IsValid (drop_at offset s)
unfolding drop_at
drop_at-IsValid {s} offset v h = record {
  tail_in = v.tail_in;
  bounded = omega (arith, v.bounded);
  head_at = refl;
  fits = close_gap-Fits (s.count - 1 - offset) offset s.tail s.queue v.fits;
}

pub purge_from-IsValid :
    (field : Message → ℕ) (id fuel offset removed : ℕ) {s : Ipc}
    → IsValid s
    → IsValid (purge_from field id fuel offset removed s).1
unfolding purge_from
purge_from-IsValid field id zero offset removed v = v
purge_from-IsValid field id (suc fuel) offset removed {s} v =
    if_each (λ (r : ℕ × Ipc). IsValid r.1) (ltb offset s.count) _ _
      (λ inside.
        if_both (λ (r : ℕ × Ipc). IsValid r.1) (field (s.queue (position s.tail offset)) == id) _ _
          (purge_from-IsValid field id fuel offset (removed + 1)
            (drop_at-IsValid offset v (ltb→lt _ _ inside)))
          (purge_from-IsValid field id fuel (offset + 1) removed v))
      (λ outside. v)

pub purge_field-IsValid :
    {s : Ipc} (id : ℕ) (match_sender : Bool) → IsValid s → IsValid (purge_field id match_sender s).1
unfolding purge_field
purge_field-IsValid {s} id match_sender v =
    if_both (λ (r : ℕ × Ipc). IsValid r.1) (id == 0) _ _ v (purge_from-IsValid _ id s.count 0 0 v)

pub purge_receiver-IsValid : {s : Ipc} (id : ℕ) → IsValid s → IsValid (purge_receiver id s).1
unfolding purge_receiver
purge_receiver-IsValid {s} id v =
    if_both (λ (r : ℕ × Ipc). IsValid r.1) (id == 0) _ _ v (purge_from-IsValid _ id s.count 0 0 v)
