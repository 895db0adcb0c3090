-- ===== src/Ipc/Refine.antt =====
-- The operations of kernel/ipc.c implement the bounded list of messages of `Ipc.Fifo`.
use efes_os.Base.{
  ℕ, zero, suc, ◌+◌, ◌≤◌, ◌<◌, ◌≡◌, refl, sym, ap, ap₂, ◌∙◌, Bool, true, false, not, ◌&&◌, ◌||◌,
  Option, none, some, is_some, List, [], ◌∷◌, ◌++◌, arith, ltb, leb, ◌==◌, if◌then◌else◌, length,
  ◌⊎◌, inl, inr, Bool-cases, if_each, keep,
}
use efes_os.Base.Arrays.{
  update, slice, slice-add, slice-ext, slice-length, copy_from, copy_from_lem,
}
use efes_os.Ipc.{
  Ipc, Message, Outputs, send_from_to, receive_for, receive_at, take_at, first_match, pointed,
  enqueue, position, message_matches, pending_for, count_matches, store, copy_out, task, user_tasks,
}
use efes_os.Ipc.Fifo
use efes_os.Ipc.Fifo.{Envelope, addressed, take_first, prepend}
use efes_os.Ipc.Slots.{envelope, nth, nth-update}
use efes_os.Ipc.Inv.{IsValid, contents}

pub length-contents : (s : Ipc) → length (contents s) ≡ s.count
unfolding contents
length-contents s = slice-length (nth s.queue s.tail) 0 s.count

-- The message that a call of `ipc_send_from_to` stands for.
abbrev pub sent : ℕ → ℕ → ℕ → Option (ℕ → ℕ) → ℕ → Envelope
sent sender receiver type source n = record {
  sender_id = sender;
  receiver_id = receiver;
  type = type;
  bytes = slice (pointed source) 0 n;
}

last_entry :
    (m : Message) (sender receiver type : ℕ) (source : Option (ℕ → ℕ)) (n : ℕ) (old : ℕ → ℕ)
    → m ≡ record {
      sender_id = sender;
      receiver_id = receiver;
      type = type;
      length = n;
      bytes = copy_from n 0 old (pointed source);
    }
    → envelope m ≡ sent sender receiver type source n
unfolding envelope
last_entry m sender receiver type source n old e = rw e (
    ap
      (λ (bytes : List ℕ). record {
        sender_id = sender;
        receiver_id = receiver;
        type = type;
        bytes = bytes;
      })
      (slice-ext _ (pointed source) 0 n
        (λ j p q. ground (arith, copy_from_lem n 0 old (pointed source) j))))

contents-enqueue :
    {s : Ipc} (sender receiver type : ℕ) (source : Option (ℕ → ℕ)) (n : ℕ)
    → IsValid s
    → s.count < 16
    → contents (enqueue sender receiver type (pointed source) n s)
      ≡ contents s ++ (sent sender receiver type source n ∷ [])
unfolding contents enqueue
contents-enqueue {s} sender receiver type source n v room = rw (v.head_at) (
    slice-add _ 0 s.count (s.count + 1) 1 refl
    ∙ ap₂ ◌++◌ (slice-ext _ (nth s.queue s.tail) 0 s.count older) (ap (λ m. m ∷ []) newest))
  where
    message : Message
    message = record {
      sender_id = sender;
      receiver_id = receiver;
      type = type;
      length = n;
      bytes = copy_from n 0 (s.queue (position s.tail s.count)).bytes (pointed source);
    }

    after : ℕ → Message
    after = update s.queue (position s.tail s.count) message

    older : (j : ℕ) → 0 ≤ j → j < 0 + s.count → nth after s.tail j ≡ nth s.queue s.tail j
    older j p q = ground (arith, nth-update s.queue s.tail s.count j message room (omega arith))

    newest : nth after s.tail (0 + s.count) ≡ sent sender receiver type source n
    newest = ground (
      arith,
      nth-update s.queue s.tail s.count (0 + s.count) message room (omega arith),
      last_entry message sender receiver type source n (s.queue (position s.tail s.count)).bytes
          refl,
    )

matches-addressed :
    (queue : ℕ → Message) (tail offset receiver : ℕ)
    → message_matches (queue (position tail offset)) receiver
      ≡ addressed receiver (nth queue tail offset)
unfolding message_matches nth envelope
matches-addressed queue tail offset receiver = refl

-- Where the search loop stops, started with `n` messages from offset `o` on.
abbrev Found : (ℕ → Envelope) → (Envelope → Bool) → ℕ → ℕ → ℕ → Type 0
Found a p o n k =
    ((k ≡ o + n) × (take_first p (slice a o n) ≡ none))
    ⊎ ((m : ℕ) × (t : ℕ) × (k ≡ o + m)
        × (n ≡ m + suc t)
        × (take_first p (slice a o n) ≡ some (a k, slice a o m ++ slice a (k + 1) t)))

Found-here :
    (a : ℕ → Envelope) (p : Envelope → Bool) (o n : ℕ) → p (a o) ≡ true → Found a p o (suc n) o
unfolding take_first
Found-here a p o n hit = inr (0, n, omega arith, omega arith, rw hit refl)

Found-later :
    (a : ℕ → Envelope) (p : Envelope → Bool) (o n k : ℕ)
    → p (a o) ≡ false
    → Found a p (o + 1) n k
    → Found a p o (suc n) k
unfolding take_first
Found-later a p o n k miss (inl (e, t)) = inl (omega arith, rw (miss, t) refl)
Found-later a p o n k miss (inr (m, t, e, l, f)) =
    inr (suc m, t, omega arith, omega arith, rw (miss, f) refl)

first_match-Found :
    (n o tail : ℕ) (queue : ℕ → Message) (r : ℕ)
    → Found (nth queue tail) (addressed r) o n (first_match n o tail queue r)
unfolding first_match take_first
first_match-Found zero o tail queue r = inl (omega arith, refl)
first_match-Found (suc n) o tail queue r = rw (matches-addressed queue tail o r) (
    if_each (Found (nth queue tail) (addressed r) o (suc n)) (addressed r (nth queue tail o)) _ _
      (Found-here (nth queue tail) (addressed r) o n)
      (λ miss.
        Found-later (nth queue tail) (addressed r) o n _ miss
          (first_match-Found n (o + 1) tail queue r)))

-- The arguments that `ipc_send_from_to` accepts.
abbrev pub acceptable : Option (ℕ → ℕ) → ℕ → Bool
acceptable source n = leb n 64 && (n == 0 || is_some source)

-- `ipc_send_from_to` on a valid ring: arguments that are acceptable are sent as the bounded list
-- sends them, all others change nothing; exactly a send that is done wakes somebody, the receiver
-- it names or else all user tasks.
pub send_refines :
    {s : Ipc} (sender receiver type : ℕ) (source : Option (ℕ → ℕ)) (n : ℕ)
    → IsValid s
    → let (done, wake, s') = send_from_to sender receiver type source n s in
      ((done, contents s') ≡ (
        if acceptable source n
        then Fifo.send 16 (sent sender receiver type source n) (contents s)
        else (false, contents s)))
      × (wake ≡ (if done then some (if receiver == 0 then user_tasks else task receiver) else none))
unfolding send_from_to Fifo.send
send_refines {s} sender receiver type source n v =
    ground (arith, length-contents s, contents-enqueue {s = s} sender receiver type source n v)

-- The search result decides what is received.
abbrev Receives :
    Outputs → ℕ → Ipc → Option (Envelope × List Envelope) → Bool × Outputs × Ipc → Type 0
Receives out capacity s found (done, out', s') =
    (done, contents s') ≡ Fifo.deliver (is_some out.bytes) capacity (contents s) found

-- What the caller's pointers hold after a receive that is done.
abbrev pub Delivered : Outputs → ℕ → Envelope → Outputs → Type 0
Delivered out capacity m out' =
    (length m.bytes ≤ capacity)
    × (out'.type ≡ store out.type m.type)
    × (out'.length ≡ store out.length (length m.bytes))
    × ((b : ℕ → ℕ) → out'.bytes ≡ some b → slice b 0 (length m.bytes) ≡ m.bytes)

copied_out :
    (d : Option (ℕ → ℕ)) (n : ℕ) (source b : ℕ → ℕ)
    → copy_out d n source ≡ some b
    → slice b 0 n ≡ slice source 0 n
copied_out none n source b e = cc
copied_out (some d) n source b e = slice-ext b source 0 n λ j p q.
    ap (λ (o : Option (ℕ → ℕ)). pointed o j) (sym e) ∙ ground (arith, copy_from_lem n 0 d source j)

take_at_delivers :
    (s : Ipc) (k capacity : ℕ) (out : Outputs)
    → (take_at k capacity out s).0 ≡ true
    → Delivered out capacity (nth s.queue s.tail k) (take_at k capacity out s).1
unfolding take_at nth envelope
take_at_delivers s k capacity out =
    if_each (λ (r : Bool × Outputs × Ipc). r.0 ≡ true → Delivered out capacity (envelope m) r.1)
      too_long _ _ (λ refused done. cc)
      (λ fits done. (
        ground (arith, slice-length m.bytes 0 m.length),
        refl,
        rw slice-length,
        λ b e. rw slice-length (copied_out out.bytes m.length m.bytes b e),
      ))
  where
    m : Message
    m = s.queue (position s.tail k)

    too_long : Bool
    too_long = ltb capacity m.length || (not (m.length == 0) && not (is_some out.bytes))

receive_at_delivers :
    (s : Ipc) (receiver k capacity : ℕ) (out : Outputs)
    → Found (nth s.queue s.tail) (addressed receiver) 0 s.count k
    → (receive_at k capacity out s).0 ≡ true
    → (m : Envelope) × (rest : List Envelope) × (take_first (addressed receiver) (contents s)
        ≡ some (m, rest))
      × Delivered out capacity m (receive_at k capacity out s).1
unfolding receive_at contents
receive_at_delivers s receiver k capacity out (inl (e, f)) done = absurd (ground arith)
receive_at_delivers s receiver k capacity out (inr (m, t, e, l, f)) done =
    let at : (k == s.count) ≡ false = ground arith in
    (nth s.queue s.tail k, _, f, rw at (take_at_delivers s k capacity out (rw at at done)))

-- A receive that is done hands over the oldest message for the receiver: its type, its length, which
-- the buffer's capacity holds, and its bytes.
pub receive_delivers :
    (s : Ipc) (receiver capacity : ℕ) (out : Outputs)
    → (receive_for receiver capacity out s).0 ≡ true
    → (m : Envelope) × (rest : List Envelope) × (take_first (addressed receiver) (contents s)
        ≡ some (m, rest))
      × Delivered out capacity m (receive_for receiver capacity out s).1
unfolding receive_for
receive_delivers s receiver capacity out =
    receive_at_delivers s receiver (first_match s.count 0 s.tail s.queue receiver) capacity out
      (first_match-Found s.count 0 s.tail s.queue receiver)

count_matches_lem :
    (n o tail : ℕ) (queue : ℕ → Message) (r found : ℕ)
    → count_matches n o tail queue r found
      ≡ found + length (keep (addressed r) (slice (nth queue tail) o n))
unfolding count_matches
count_matches_lem zero o tail queue r found = omega arith
count_matches_lem (suc n) o tail queue r found =
    rw (matches-addressed queue tail o r) (elim (Bool-cases (addressed r (nth queue tail o))) [
      | inl hit ↦ rw hit (omega (arith, count_matches_lem n (o + 1) tail queue r (found + 1)))
      | inr miss ↦ rw miss (count_matches_lem n (o + 1) tail queue r found)
    ])

-- `ipc_pending_for` counts the messages that the receiver may take.
pub pending_for_refines :
    (r : ℕ) (s : Ipc) → pending_for r s ≡ length (keep (addressed r) (contents s))
unfolding pending_for contents
pending_for_refines r s = count_matches_lem s.count 0 s.tail s.queue r 0 ∙ omega arith
