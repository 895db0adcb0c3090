-- ===== src/Ahci/Irq/Laws.antt =====
-- The interrupts of a command are reported to its generation alone.
use Prim.Native.Nat.{bit_and-bitwise}
use efes_os.Base.{
  ℕ, ◌<◌, ◌≡◌, ◌≢◌, ◌⊎◌, inl, inr, refl, ap, Bool, true, not, ◌||◌, Option, some, ◌==◌, arith,
  if_each, if_both, bit_and, bit_or, List, [], ◌∷◌,
}
use efes_os.Base.Words.{add32, bit_or-zero}
use efes_os.Ahci.Irq.{
  Observation, IrqState, irq_begin, irq_record, irq_observe, irq_finish, classify, next_generation,
}
use efes_os.Ahci.Irq.Observation.{observe_none}

-- The interrupt handler has run once for each status.
pub record_all : Option IrqState → List ℕ → Option IrqState
record_all s [] = s
record_all s (status ∷ more) = record_all (irq_record s status) more

-- The statuses together.
pub union_from : ℕ → List ℕ → ℕ
union_from seen [] = seen
union_from seen (status ∷ more) = union_from (bit_or seen status) more

pub next_generation-pos : (g : ℕ) → 0 < next_generation g
unfolding next_generation
next_generation-pos g =
    if_each (λ n. 0 < n) (add32 g 1 == 0) _ _ (λ h. omega arith) (λ h. ground arith)

-- A command is in flight and `seen` is what its interrupts have reported.
pub record InFlight (s : IrqState) (generation seen : ℕ) : Type 0 where
  pub enabled_set : s.enabled ≢ 0
  pub active_set : s.active ≢ 0
  pub current : s.generation ≡ generation
  pub status : s.observed_status ≡ seen
  pub marked : (s.observed_generation ≡ generation) ⊎ (seen ≡ 0)

begin-InFlight :
    (s : IrqState)
    → s.enabled ≢ 0
    → s.active ≡ 0
    → (t : IrqState) × ((irq_begin (some s)).1 ≡ some t)
      × ((irq_begin (some s)).0 ≡ next_generation s.generation)
      × InFlight t (next_generation s.generation) 0
unfolding irq_begin
begin-InFlight s on idle =
    if_each Begins ((s.enabled == 0) || not (s.active == 0)) _
      (next_generation s.generation, some started) (λ refused. absurd (ground arith))
      (λ allowed. (
        started,
        refl,
        refl,
        record {
          enabled_set = on;
          active_set = λ e. absurd (omega arith);
          current = refl;
          status = refl;
          marked = inr refl;
        },
      ))
  where
    Begins : ℕ × Option IrqState → Type 0
    Begins o =
        (t : IrqState) × (o.1 ≡ some t)
        × (o.0 ≡ next_generation s.generation)
        × InFlight t (next_generation s.generation) 0

    started : IrqState
    started = record s {
      generation = next_generation s.generation;
      observed_generation = 0;
      observed_status = 0;
      active = 1;
    }

record-InFlight :
    (s : IrqState) (g seen status : ℕ)
    → InFlight s g seen
    → (t : IrqState) × (irq_record (some s) status ≡ some t) × InFlight t g (bit_or seen status)
unfolding irq_record
record-InFlight s g seen status f =
    if_each Records ((s.enabled == 0) || (status == 0)) _ _
      (λ ignored. let e : status ≡ 0 = ground arith in (s, refl, rw (e, bit_or-zero seen) f))
      (λ seen_now.
        if_each Records (not (s.active == 0)) (some recorded) _
          (λ active. (
            recorded,
            refl,
            record {
              enabled_set = f.enabled_set;
              active_set = f.active_set;
              current = f.current;
              status = ap (λ n. bit_or n status) f.status;
              marked = inl f.current;
            },
          ))
          (λ inactive. absurd (ground arith)))
  where
    Records : Option IrqState → Type 0
    Records o = (t : IrqState) × (o ≡ some t) × InFlight t g (bit_or seen status)

    recorded : IrqState
    recorded = record s {
      interrupt_count = add32 s.interrupt_count 1;
      observed_status = bit_or s.observed_status status;
      observed_generation = s.generation;
    }

record_all-InFlight :
    (s : IrqState) (g seen : ℕ) (statuses : List ℕ)
    → InFlight s g seen
    → (t : IrqState) × (record_all (some s) statuses ≡ some t)
      × InFlight t g (union_from seen statuses)
unfolding record_all union_from
record_all-InFlight s g seen [] f = (s, refl, f)
record_all-InFlight s g seen (status ∷ more) f =
    let (t, e, f') = record-InFlight s g seen status f in
    rw e (record_all-InFlight t g (bit_or seen status) more f')

classify-zero : (completion error : ℕ) → classify 0 completion error ≡ observe_none
unfolding classify
classify-zero completion error =
    let e : bit_and 0 error ≡ 0 = omega (arith, bit_and-bitwise 0 error) in
    let c : bit_and 0 completion ≡ 0 = omega (arith, bit_and-bitwise 0 completion) in rw (e, c) refl

finish-InFlight :
    (s : IrqState) (g seen asked other completion error : ℕ)
    → 0 < g
    → InFlight s g seen
    → let (ended, end) = irq_finish (some s) asked in
      (ended ≡ (asked == g))
      × (asked ≢ g → end ≡ some s)
      × (asked ≡ g → irq_observe end other completion error ≡ observe_none)
      × (asked ≡ g → (irq_begin end).0 ≡ next_generation g)
unfolding irq_finish irq_observe irq_begin
finish-InFlight s g seen asked other completion error pos f =
    if_each Ends ((asked == 0) || (s.active == 0) || not (s.generation == asked)) _
      (true, some (record s { active = 0; observed_generation = 0; observed_status = 0 }))
      (λ refused. (ground arith, λ d. refl, λ e. absurd (ground arith), λ e. absurd (ground arith)))
      (λ accepted. (
        ground arith,
        λ d. absurd (ground arith),
        λ e.
            if_both (λ o. o ≡ observe_none)
              ((other == 0)
                || (s.enabled == 0)
                || true
                || not (s.generation == other)
                || not (0 == other))
              observe_none (classify 0 completion error) refl (classify-zero completion error),
        λ e. ground arith,
      ))
  where
    Ends : Bool × Option IrqState → Type 0
    Ends o =
        (o.0 ≡ (asked == g))
        × (asked ≢ g → o.1 ≡ some s)
        × (asked ≡ g → irq_observe o.1 other completion error ≡ observe_none)
        × (asked ≡ g → (irq_begin o.1).0 ≡ next_generation g)

-- After a command has begun on an enabled idle port, and whatever statuses its interrupts have had, it
-- ends only by its own generation: a stale or zero generation changes nothing. The right one leaves
-- nothing for any observation to report and the port idle: the next command begins, under the next
-- generation.
pub begin-finish :
    (s : IrqState) (statuses : List ℕ) (asked other completion error : ℕ)
    → s.enabled ≢ 0
    → s.active ≡ 0
    → let (generation, begun) = irq_begin (some s) in
      let during = record_all begun statuses in
      let (ended, end) = irq_finish during asked in
      (ended ≡ (asked == generation))
      × (asked ≢ generation → end ≡ during)
      × (asked ≡ generation → irq_observe end other completion error ≡ observe_none)
      × (asked ≡ generation → (irq_begin end).0 ≡ next_generation generation)
begin-finish s statuses asked other completion error on idle =
    let (t, e, g, f) = begin-InFlight s on idle in
    let (u, e', f') = record_all-InFlight t (next_generation s.generation) 0 statuses f in
    let pos : 0 < next_generation s.generation = next_generation-pos s.generation in
    rw (g, e, e')
      (finish-InFlight u (next_generation s.generation) (union_from 0 statuses) asked other
        completion error pos f')
