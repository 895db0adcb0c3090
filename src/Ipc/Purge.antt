-- ===== src/Ipc/Purge.antt =====
-- The purges of kernel/ipc.c, run when a task ends: exactly the messages of one task go.
use efes_os.Base.{
  ℕ, zero, suc, ◌+◌, ◌-◌, ◌≤◌, ◌<◌, ◌≡◌, refl, sym, ap, ◌∙◌, Bool, true, false, not, ◌||◌, [], ◌∷◌,
  ◌++◌, arith, ltb, ◌==◌, if◌then◌else◌, length, keep, if_each, keep-all, Bool-cases, inl, inr,
  append_assoc, append-nil,
}
use native.Mathlib.Nat.{add-zero}
use native.Mathlib.Decide.{dec_lt}
use efes_os.Base.Arrays.{slice, slice-add, slice-ext, slice-cong, slice-length}
use efes_os.Ipc.{
  Ipc, Message, purge_from, purge_receiver, purge_field, purge_sender, drop_at, position,
}
use efes_os.Ipc.Fifo.{Envelope}
use efes_os.Ipc.Slots.{envelope, nth, nth-close_gap}
use efes_os.Ipc.Inv.{IsValid, contents, drop_at-IsValid}

nth-drop_at :
    {s : Ipc} (o i : ℕ)
    → IsValid s
    → o < s.count
    → i < s.count - 1
    → nth (drop_at o s).queue (drop_at o s).tail i
      ≡ (if ltb i o then nth s.queue s.tail i else nth s.queue s.tail (i + 1))
unfolding drop_at
nth-drop_at {s} o i v h hi = ground (
  arith,
  nth-close_gap (s.count - 1 - o) o s.tail i s.queue v.fits (omega (arith, v.bounded))
      (omega (arith, v.bounded)),
)

tail-drop_at :
    (o : ℕ) (s : Ipc) → ((drop_at o s).tail ≡ s.tail) × ((drop_at o s).count ≡ s.count - 1)
unfolding drop_at
tail-drop_at o s = (refl, refl)

before-drop_at :
    {s : Ipc} (o : ℕ)
    → IsValid s
    → o < s.count
    → slice (nth (drop_at o s).queue (drop_at o s).tail) 0 o ≡ slice (nth s.queue s.tail) 0 o
before-drop_at {s} o v h = slice-ext _ (nth s.queue s.tail) 0 o λ j p q.
    elim (dec_lt j (s.count - 1)) [
      | yes r ↦ ground (arith, nth-drop_at {s = s} o j v h r)
      | no r ↦ absurd (omega arith)
    ]

behind-drop_at :
    {s : Ipc} (o n : ℕ)
    → IsValid s
    → s.count ≡ o + suc n
    → slice (nth (drop_at o s).queue (drop_at o s).tail) o n ≡ slice (nth s.queue s.tail) (o + 1) n
behind-drop_at {s} o n v e = slice-cong _ (nth s.queue s.tail) o (o + 1) n λ t p. ground (
  arith,
  nth-drop_at {s = s} o (o + t) v (omega arith) (omega arith),
  ap (nth s.queue s.tail) {x = o + t + 1} {y = o + 1 + t} (omega arith),
)

-- What a purge from offset `o` on leaves, with `n` messages ahead.
abbrev Purged : (Envelope → Bool) → (ℕ → Envelope) → ℕ → ℕ → ℕ → ℕ × Ipc → Type 0
Purged stays a o n removed (r, s') =
    (contents s' ≡ slice a 0 o ++ keep stays (slice a o n))
    × (r + length (keep stays (slice a o n)) ≡ removed + n)

Purged-drop :
    (stays : Envelope → Bool) {s : Ipc} (o n removed : ℕ) (r : ℕ × Ipc)
    → IsValid s
    → s.count ≡ o + suc n
    → stays (nth s.queue s.tail o) ≡ false
    → Purged stays (nth (drop_at o s).queue (drop_at o s).tail) o n (removed + 1) r
    → Purged stays (nth s.queue s.tail) o (suc n) removed r
Purged-drop stays {s} o n removed r v e gone h = rw gone (
    rw (← behind-drop_at {s = s} o n v e, ← before-drop_at {s = s} o v (omega arith))
      (h.0, omega (arith, h.1)))

grown : (a : ℕ → Envelope) (o : ℕ) → slice a 0 (o + 1) ≡ slice a 0 o ++ (a o ∷ [])
grown a o =
    slice-add a 0 o (o + 1) 1 refl
    ∙ ap (λ k. slice a 0 o ++ (a k ∷ [])) {x = 0 + o} {y = o} (omega arith)

Purged-pass :
    (stays : Envelope → Bool) (a : ℕ → Envelope) (o n removed : ℕ) (r : ℕ × Ipc)
    → stays (a o) ≡ true
    → Purged stays a (o + 1) n removed r
    → Purged stays a o (suc n) removed r
Purged-pass stays a o n removed r stay h = rw stay (
  h.0
      ∙ ap (λ l. l ++ keep stays (slice a (o + 1) n)) (grown a o)
      ∙ append_assoc (slice a 0 o) (a o ∷ []) (keep stays (slice a (o + 1) n)),
  omega (arith, h.1),
)

module _ (field : Message → ℕ) (id : ℕ) (stays : Envelope → Bool)
    (agree : (m : Message) → stays (envelope m) ≡ not (field m == id)) where
  stays_at :
      (s : Ipc) (o : ℕ) (hit : Bool)
      → (field (s.queue (position s.tail o)) == id) ≡ hit
      → stays (nth s.queue s.tail o) ≡ not hit
  unfolding nth
  stays_at s o hit h = agree (s.queue (position s.tail o)) ∙ ap not h

  ended :
      (o removed : ℕ) {s : Ipc}
      → IsValid s
      → s.count ≡ o + 0
      → Purged stays (nth s.queue s.tail) o 0 removed (removed, s)
  unfolding contents
  ended o removed {s} v e =
      (ap (slice (nth s.queue s.tail) 0) (e ∙ add-zero o) ∙ sym (append-nil _), omega arith)

  purge_from-Purged :
      (fuel o n removed : ℕ) {s : Ipc}
      → IsValid s
      → s.count ≡ o + n
      → n ≤ fuel
      → Purged stays (nth s.queue s.tail) o n removed (purge_from field id fuel o removed s)
  unfolding purge_from contents
  purge_from-Purged zero o zero removed {s} v e h = ended o removed v e
  purge_from-Purged zero o (suc n) removed v e h = absurd (omega arith)
  purge_from-Purged (suc fuel) o zero removed {s} v e h =
      let out : ltb o s.count ≡ false = ground arith in rw out (ended o removed v e)
  purge_from-Purged (suc fuel) o (suc n) removed {s} v e h =
      let inside : ltb o s.count ≡ true = ground arith in
      rw inside (
        if_each (Purged stays (nth s.queue s.tail) o (suc n) removed)
          (field (s.queue (position s.tail o)) == id) _ _
          (λ hit.
            Purged-drop stays {s = s} o n removed
              (purge_from field id fuel o (removed + 1) (drop_at o s)) v e (stays_at s o true hit)
              (purge_from-Purged fuel o n (removed + 1) {s = drop_at o s}
                (drop_at-IsValid o v (omega arith)) ((tail-drop_at o s).1 ∙ omega arith)
                (omega arith)))
          (λ miss.
            Purged-pass stays (nth s.queue s.tail) o n removed
              (purge_from field id fuel (o + 1) removed s) (stays_at s o false miss)
              (purge_from-Purged fuel (o + 1) n removed v (omega arith) (omega arith))))

-- What is left, and how many went.
abbrev pub Leaves : (Envelope → Bool) → Ipc → ℕ × Ipc → Type 0
Leaves stays s (removed, s') =
    (contents s' ≡ keep stays (contents s)) × (removed + length (contents s') ≡ length (contents s))

Leaves-of_Purged :
    (stays : Envelope → Bool) (s : Ipc) (r : ℕ × Ipc)
    → Purged stays (nth s.queue s.tail) 0 s.count 0 r
    → Leaves stays s r
unfolding contents
Leaves-of_Purged stays s r h = (
  h.0,
  ap (λ l. r.0 + length l) h.0 ∙ omega (arith, h.1, slice-length (nth s.queue s.tail) 0 s.count),
)

guarded-Leaves :
    (field : Message → ℕ) (id : ℕ) (of : Envelope → ℕ) {s : Ipc}
    → ((m : Message) → of (envelope m) ≡ field m)
    → IsValid s
    → Leaves
        (λ m. id == 0 || not (of m == id))
        s
        (if id == 0 then (0, s) else purge_from field id s.count 0 0 s)
guarded-Leaves field id of {s} same v = elim (Bool-cases (id == 0)) [
  | inl zero_id ↦
      let all_kept : keep (λ m. id == 0 || not (of m == id)) (contents s) ≡ contents s =
        keep-all _ (contents s) (λ m. rw zero_id) in
      rw zero_id (sym (rw zero_id at all_kept), omega arith)
  | inr real ↦ rw real (
      Leaves-of_Purged (λ m. not (of m == id)) s _
        (purge_from-Purged field id (λ m. not (of m == id)) (λ m. ap (λ k. not (k == id)) (same m))
          s.count 0 s.count 0 v (omega arith) (omega arith)))
]

-- Ending a receiver: a purge by receiver keeps the messages for all others and for everybody, in
-- order, and returns how many it removed; receiver 0 purges nothing.
pub purge_receiver_refines :
    {s : Ipc} (id : ℕ)
    → IsValid s
    → Leaves (λ m. id == 0 || not (m.receiver_id == id)) s (purge_receiver id s)
unfolding purge_receiver envelope
purge_receiver_refines id v =
    guarded-Leaves (λ m. m.receiver_id) id (λ m. m.receiver_id) (λ m. refl) v

-- A purge by sender keeps the messages of all other senders, in order, and returns how many it
-- removed; sender 0 purges nothing.
pub purge_sender_refines :
    {s : Ipc} (id : ℕ)
    → IsValid s
    → Leaves (λ m. id == 0 || not (m.sender_id == id)) s (purge_sender id s)
unfolding purge_sender purge_field envelope
purge_sender_refines id v = guarded-Leaves (λ m. m.sender_id) id (λ m. m.sender_id) (λ m. refl) v
