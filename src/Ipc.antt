-- ===== src/Ipc.antt =====
-- kernel/ipc.c: the bounded message queue behind the IPC system calls. The static ring `queue` is a
-- function of the slot; `irq_save` and `irq_restore` make each operation atomic, so an operation is
-- a function of the whole state. A pointer that may be null is an `Option`.
pub mod Fifo
pub mod Slots
pub mod Inv
pub mod Refine
pub mod Purge
mod Tests
use efes_os.Base.{
  ℕ, zero, suc, ◌+◌, ◌-◌, ◌%◌, Bool, true, false, not, ◌&&◌, ◌||◌, Option, none, some, is_some,
  ◌==◌, ltb, leb, if◌then◌else◌,
}
use efes_os.Base.Arrays.{update, copy_from}

abbrev pub queue_capacity : ℕ
queue_capacity = 16

abbrev pub message_max : ℕ
message_max = 64

pub record Message : Type 0 where
  pub sender_id : ℕ
  pub receiver_id : ℕ
  pub type : ℕ
  pub length : ℕ
  pub bytes : ℕ → ℕ

pub record Ipc : Type 0 where
  pub queue : ℕ → Message
  pub head : ℕ
  pub tail : ℕ
  pub count : ℕ

-- Whom a successful send wakes: `scheduler_wake_task_id` or `scheduler_wake_user_tasks`.
pub data Wake : Type 0 where
  task : ℕ → Wake
  user_tasks : Wake

pub init : Ipc → Ipc
init s = record s { head = 0; tail = 0; count = 0 }

-- What a pointer reads; a null pointer is never read.
abbrev pub pointed : Option (ℕ → ℕ) → ℕ → ℕ
pointed none i = 0
pointed (some bytes) i = bytes i

pub enqueue : ℕ → ℕ → ℕ → (ℕ → ℕ) → ℕ → Ipc → Ipc
enqueue sender_id receiver_id type bytes length s = record s {
  queue = update s.queue s.head (record {
    sender_id = sender_id;
    receiver_id = receiver_id;
    type = type;
    length = length;
    bytes = copy_from length 0 (s.queue s.head).bytes bytes;
  });
  head = (s.head + 1) % queue_capacity;
  count = s.count + 1;
}

pub send_from_to : ℕ → ℕ → ℕ → Option (ℕ → ℕ) → ℕ → Ipc → Bool × Option Wake × Ipc
send_from_to sender_id receiver_id type source length s =
    if ltb message_max length || (not (length == 0) && not (is_some source))
    then (false, none, s)
    else if leb queue_capacity s.count
    then (false, none, s)
    else (
      true,
      some (if receiver_id == 0 then user_tasks else task receiver_id),
      enqueue sender_id receiver_id type (pointed source) length s,
    )

pub send : ℕ → Option (ℕ → ℕ) → ℕ → Ipc → Bool × Option Wake × Ipc
send type source length s = send_from_to 0 0 type source length s

pub message_matches : Message → ℕ → Bool
message_matches m receiver_id =
    receiver_id == 0 || m.receiver_id == 0 || m.receiver_id == receiver_id

pub copy_message : Message → Message → Message
copy_message destination source = record {
  sender_id = source.sender_id;
  receiver_id = source.receiver_id;
  type = source.type;
  length = source.length;
  bytes = copy_from message_max 0 destination.bytes source.bytes;
}

-- The slot of the message `offset` places behind the oldest.
abbrev pub position : ℕ → ℕ → ℕ
position tail offset = (tail + offset) % queue_capacity

-- The search loop of `ipc_receive_for`, with `n` offsets left to try: the first offset that matches.
pub first_match : ℕ → ℕ → ℕ → (ℕ → Message) → ℕ → ℕ
first_match zero offset tail queue receiver_id = offset
first_match (suc n) offset tail queue receiver_id =
    let rest = first_match n (offset + 1) tail queue receiver_id in
    if message_matches (queue (position tail offset)) receiver_id then offset else rest

-- The loop that moves the messages before the received one up by a slot.
pub move_up : ℕ → ℕ → (ℕ → Message) → ℕ → Message
move_up zero at queue = queue
move_up (suc offset) at queue =
    let previous = (at + queue_capacity - 1) % queue_capacity in
    move_up offset previous (update queue at (copy_message (queue at) (queue previous)))

-- The caller's `type`, data and `length` pointers, with what they point to.
pub record Outputs : Type 0 where
  pub type : Option ℕ
  pub bytes : Option (ℕ → ℕ)
  pub length : Option ℕ

abbrev pub store {ℓ} : {A : Type ℓ} → Option A → A → Option A
store none v = none
store (some old) v = some v

abbrev pub copy_out : Option (ℕ → ℕ) → ℕ → (ℕ → ℕ) → Option (ℕ → ℕ)
copy_out none n source = none
copy_out (some destination) n source = some (copy_from n 0 destination source)

-- Removal of the message at `offset`: the older ones close up behind it.
pub dequeue : ℕ → Ipc → Ipc
dequeue offset s = record s {
  queue = move_up offset (position s.tail offset) s.queue;
  tail = (s.tail + 1) % queue_capacity;
  count = s.count - 1;
}

pub take_at : ℕ → ℕ → Outputs → Ipc → Bool × Outputs × Ipc
take_at offset capacity out s =
    let at = position s.tail offset in
    let m = s.queue at in
    if ltb capacity m.length || (not (m.length == 0) && not (is_some out.bytes))
    then (false, out, s)
    else (
      true,
      record {
        type = store out.type m.type;
        bytes = copy_out out.bytes m.length m.bytes;
        length = store out.length m.length;
      },
      dequeue offset s,
    )

-- What follows the search loop: `offset == count` is its failure.
pub receive_at : ℕ → ℕ → Outputs → Ipc → Bool × Outputs × Ipc
receive_at offset capacity out s =
    if offset == s.count then (false, out, s) else take_at offset capacity out s

pub receive_for : ℕ → ℕ → Outputs → Ipc → Bool × Outputs × Ipc
unfolding receive_at
receive_for receiver_id capacity out s =
    receive_at (first_match s.count 0 s.tail s.queue receiver_id) capacity out s

pub receive : ℕ → Outputs → Ipc → Bool × Outputs × Ipc
receive capacity out s = receive_for 0 capacity out s

pub pending : Ipc → ℕ
pending s = s.count

-- The counting loop of `ipc_pending_for`, with `n` offsets left.
pub count_matches : ℕ → ℕ → ℕ → (ℕ → Message) → ℕ → ℕ → ℕ
count_matches zero offset tail queue receiver_id found = found
count_matches (suc n) offset tail queue receiver_id found =
    count_matches n (offset + 1) tail queue receiver_id
      (if message_matches (queue (position tail offset)) receiver_id then found + 1 else found)

pub pending_for : ℕ → Ipc → ℕ
pending_for receiver_id s = count_matches s.count 0 s.tail s.queue receiver_id 0

-- The inner loop of the purges: the `n` messages behind offset `shift` move down by a slot.
pub close_gap : ℕ → ℕ → ℕ → (ℕ → Message) → ℕ → Message
close_gap zero shift tail queue = queue
close_gap (suc n) shift tail queue =
    let destination = position tail shift in
    let source = position tail (shift + 1) in
    close_gap n (shift + 1) tail
      (update queue destination (copy_message (queue destination) (queue source)))

-- Removal of the message at `offset`.
pub drop_at : ℕ → Ipc → Ipc
drop_at offset s = record s {
  queue = close_gap (s.count - 1 - offset) offset s.tail s.queue;
  count = s.count - 1;
  head = (s.tail + (s.count - 1)) % queue_capacity;
}

-- The outer loop of the purges. Each round passes a message or removes one, so the number of
-- messages is fuel enough.
pub purge_from : (Message → ℕ) → ℕ → ℕ → ℕ → ℕ → Ipc → ℕ × Ipc
purge_from field task_id zero offset removed s = (removed, s)
purge_from field task_id (suc fuel) offset removed s =
    let passed = purge_from field task_id fuel (offset + 1) removed s in
    let dropped = purge_from field task_id fuel offset (removed + 1) (drop_at offset s) in
    if ltb offset s.count
    then if field (s.queue (position s.tail offset)) == task_id then dropped else passed
    else (removed, s)

pub purge_receiver : ℕ → Ipc → ℕ × Ipc
purge_receiver receiver_id s =
    if receiver_id == 0 then (0, s) else purge_from (λ m. m.receiver_id) receiver_id s.count 0 0 s

pub purge_field : ℕ → Bool → Ipc → ℕ × Ipc
purge_field task_id match_sender s =
    if task_id == 0
    then (0, s)
    else purge_from (λ m. if match_sender then m.sender_id else m.receiver_id) task_id s.count 0 0 s

unfoldable pub purge_sender : ℕ → Ipc → ℕ × Ipc
purge_sender sender_id s = purge_field sender_id true s
