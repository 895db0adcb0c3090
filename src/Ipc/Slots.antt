-- ===== src/Ipc/Slots.antt =====
-- The ring of kernel/ipc.c seen from its tail: what the two moving loops leave at each offset.
use efes_os.Base.{
  ℕ, zero, suc, ◌+◌, ◌-◌, ◌%◌, ◌≤◌, ◌<◌, ◌≡◌, ap, ◌&&◌, List, arith, ◌==◌, ltb, leb, if◌then◌else◌,
}
use efes_os.Base.Arrays.{update, copy_from_lem, slice, slice-ext}
use efes_os.Ipc.{Message, copy_message, position, move_up, close_gap}
use efes_os.Ipc.Fifo.{Envelope}

-- What a client sees of a stored message.
unfoldable pub envelope : Message → Envelope
envelope m = record {
  sender_id = m.sender_id;
  receiver_id = m.receiver_id;
  type = m.type;
  bytes = slice m.bytes 0 m.length;
}

-- No slot claims more bytes than it has.
abbrev pub Fits : (ℕ → Message) → Type 0
Fits queue = (i : ℕ) → (queue i).length ≤ 64

pub envelope-copy_message :
    (d s : Message) → s.length ≤ 64 → envelope (copy_message d s) ≡ envelope s
unfolding envelope copy_message
envelope-copy_message d s h =
    ap
      (λ (bytes : List ℕ). record {
        sender_id = s.sender_id;
        receiver_id = s.receiver_id;
        type = s.type;
        bytes = bytes;
      })
      (slice-ext _ s.bytes 0 s.length
        (λ j p q. ground (arith, copy_from_lem 64 0 d.bytes s.bytes j)))

-- The message `offset` places behind the tail.
unfoldable pub nth : (ℕ → Message) → ℕ → ℕ → Envelope
nth queue tail offset = envelope (queue (position tail offset))

pub nth-update :
    (queue : ℕ → Message) (tail i j : ℕ) (m : Message)
    → i < 16
    → j < 16
    → nth (update queue (position tail i) m) tail j
      ≡ (if i == j then envelope m else nth queue tail j)
unfolding nth
nth-update queue tail i j m hi hj = ground arith

pub update-Fits :
    (queue : ℕ → Message) (at : ℕ) (m : Message)
    → Fits queue
    → m.length ≤ 64
    → Fits (update queue at m)
update-Fits queue at m f h i = ground (arith, f i)

pub move_up-Fits : (k at : ℕ) (queue : ℕ → Message) → Fits queue → Fits (move_up k at queue)
unfolding move_up copy_message
move_up-Fits zero at queue f = f
move_up-Fits (suc k) at queue f =
    move_up-Fits k _ _ (update-Fits queue at _ f (f ((at + 16 - 1) % 16)))

pub close_gap-Fits :
    (n shift tail : ℕ) (queue : ℕ → Message) → Fits queue → Fits (close_gap n shift tail queue)
unfolding close_gap copy_message
close_gap-Fits zero shift tail queue f = f
close_gap-Fits (suc n) shift tail queue f =
    close_gap-Fits n (shift + 1) tail _ (update-Fits queue _ _ f (f (position tail (shift + 1))))

nth-of-copy :
    (queue : ℕ → Message) (at tail i : ℕ)
    → Fits queue
    → envelope (copy_message (queue at) (queue (position tail i))) ≡ nth queue tail i
unfolding nth
nth-of-copy queue at tail i f =
    envelope-copy_message (queue at) (queue (position tail i)) (f (position tail i))

-- After `move_up` each offset up to `k` but the first holds what stood one place before it.
pub nth-move_up :
    (k tail i : ℕ) (queue : ℕ → Message)
    → Fits queue
    → k < 16
    → i < 16
    → nth (move_up k (position tail k) queue) tail i
      ≡ (if leb 1 i && leb i k then nth queue tail (i - 1) else nth queue tail i)
unfolding move_up copy_message
nth-move_up zero tail i queue f hk hi = ground arith
nth-move_up (suc k) tail i queue f hk hi = rw previous (
    ground (
      arith,
      nth-move_up k tail i (update queue here copied)
          (update-Fits queue here copied f (f (position tail k))) (omega arith) hi,
      nth-update queue tail (suc k) i copied hk hi,
      nth-update queue tail (suc k) (i - 1) copied hk (omega arith),
      moved,
    ))
  where
    here : ℕ
    here = position tail (suc k)

    copied : Message
    copied = copy_message (queue here) (queue (position tail k))

    previous : (here + 16 - 1) % 16 ≡ position tail k
    previous = omega arith

    moved : envelope copied ≡ nth queue tail k
    moved = nth-of-copy queue here tail k f

pub nth-close_gap :
    (n shift tail i : ℕ) (queue : ℕ → Message)
    → Fits queue
    → shift + n < 16
    → i < 16
    → nth (close_gap n shift tail queue) tail i
      ≡ (if leb shift i && ltb i (shift + n) then nth queue tail (i + 1) else nth queue tail i)
unfolding close_gap copy_message
nth-close_gap zero shift tail i queue f hn hi = ground arith
nth-close_gap (suc n) shift tail i queue f hn hi = ground (
  arith,
  nth-close_gap n (shift + 1) tail i (update queue here copied)
      (update-Fits queue here copied f (f (position tail (shift + 1)))) (omega arith) hi,
  nth-update queue tail shift i copied (omega arith) hi,
  nth-update queue tail shift (i + 1) copied,
  nth-of-copy queue here tail (shift + 1) f,
)
  where
    here : ℕ
    here = position tail shift

    copied : Message
    copied = copy_message (queue here) (queue (position tail (shift + 1)))
