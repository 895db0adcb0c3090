-- ===== src/Ipc/Fifo.antt =====
-- What kernel/ipc.c promises: a bounded list of messages, oldest first.
use efes_os.Base.{
  ℕ, Bool, true, false, not, ◌&&◌, ◌||◌, Option, none, some, List, [], ◌∷◌, ◌++◌, ◌==◌, ltb, leb,
  if◌then◌else◌, length,
}

pub record Envelope : Type 0 where
  pub sender_id : ℕ
  pub receiver_id : ℕ
  pub type : ℕ
  pub bytes : List ℕ

-- A receiver sees its own messages and those for everybody; receiver 0 sees all.
abbrev pub addressed : ℕ → Envelope → Bool
addressed receiver_id m = receiver_id == 0 || m.receiver_id == 0 || m.receiver_id == receiver_id

-- The first element that passes a test, and the others in their order.
abbrev pub prepend {ℓ} : {A : Type ℓ} → A → Option (A × List A) → Option (A × List A)
prepend x none = none
prepend x (some (y, ys)) = some (y, x ∷ ys)

unfoldable pub take_first {ℓ} : {A : Type ℓ} → (A → Bool) → List A → Option (A × List A)
take_first p [] = none
take_first p (x ∷ xs) = if p x then some (x, xs) else prepend x (take_first p xs)

-- A send is refused when the queue is full, and else appends.
unfoldable pub send : ℕ → Envelope → List Envelope → Bool × List Envelope
send capacity m q = if leb capacity (length q) then (false, q) else (true, q ++ (m ∷ []))

-- A receive takes the first message for the receiver, if the buffer holds it.
abbrev pub deliver :
    Bool → ℕ → List Envelope → Option (Envelope × List Envelope) → Bool × List Envelope
deliver buffer capacity q none = (false, q)
deliver buffer capacity q (some (m, rest)) =
    if ltb capacity (length m.bytes) || (not (length m.bytes == 0) && not buffer)
    then (false, q)
    else (true, rest)

unfoldable pub receive : Bool → ℕ → ℕ → List Envelope → Bool × List Envelope
receive buffer receiver_id capacity q =
    deliver buffer capacity q (take_first (addressed receiver_id) q)
