-- ===== src/Ipc/Tests.antt =====
-- The operations of kernel/ipc.c on a ring that has gone round, and the theorems there.
use efes_os.Base.{ℕ, ◌+◌, ◌≡◌, refl, false, not, ◌||◌, none, some, arith, ◌==◌, if◌then◌else◌}
use efes_os.Ipc.{
  Ipc, Message, Outputs, Wake, send_from_to, receive_for, receive_at, take_at, dequeue, first_match,
  message_matches, move_up, copy_message, purge_receiver, pending_for, count_matches,
}
use efes_os.Ipc.Fifo
use efes_os.Ipc.Fifo.{Envelope, addressed, take_first}
use efes_os.Ipc.Inv.{IsValid, contents, send-IsValid, receive-IsValid}
use efes_os.Ipc.Refine.{send_refines, acceptable, sent}
use efes_os.Ipc.Purge.{purge_receiver_refines, Leaves}

abbrev letters : ℕ → ℕ
letters i = i + 65

abbrev message : ℕ → ℕ → ℕ → Message
message sender receiver type = record {
  sender_id = sender;
  receiver_id = receiver;
  type = type;
  length = 2;
  bytes = letters;
}

-- Slots 15, 0 and 1 are in use.
abbrev three : Ipc
three = record {
  queue = λ i. if i == 15 then message 5 7 1 else if i == 0 then message 6 0 2 else message 5 8 3;
  head = 2;
  tail = 15;
  count = 3;
}

three-IsValid : IsValid three
three-IsValid = record {
  tail_in = omega arith;
  bounded = omega arith;
  head_at = omega arith;
  fits = λ i. ground arith;
}

abbrev buffer : Outputs
buffer = record { type = some 0; bytes = some (λ i. 0); length = none }

receive_example : (receive_for 8 64 buffer three).1.type ≡ some 2
unfolding receive_for receive_at take_at dequeue first_match message_matches
receive_example = refl

receive_interior : pending_for 7 (receive_for 8 64 buffer three).2 ≡ 1
unfolding receive_for receive_at take_at dequeue first_match message_matches pending_for
    count_matches move_up copy_message
receive_interior = refl

send-IsValid_example : IsValid (send_from_to 1 2 3 (some letters) 4 three).2
send-IsValid_example = send-IsValid 1 2 3 (some letters) 4 three-IsValid

receive-IsValid_example : IsValid (receive_for 8 64 buffer three).2
receive-IsValid_example = receive-IsValid 8 64 buffer three-IsValid

send_refines_example :
    let (done, wake, s') = send_from_to 1 2 3 (some letters) 4 three in
    ((done, contents s') ≡ (
      if acceptable (some letters) 4
      then Fifo.send 16 (sent 1 2 3 (some letters) 4) (contents three)
      else (false, contents three)))
    × (wake ≡ (if done then some (Wake.task 2) else none))
send_refines_example = send_refines 1 2 3 (some letters) 4 three-IsValid

purge_receiver_refines_example :
    Leaves (λ m. 7 == 0 || not (m.receiver_id == 7)) three (purge_receiver 7 three)
purge_receiver_refines_example = purge_receiver_refines 7 three-IsValid
