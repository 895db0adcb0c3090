-- ===== src/Ahci/Irq.antt =====
-- drivers/ahci_irq_state.c and drivers/ahci_irq_state.h: what the interrupts of a port have reported
-- about the command in flight. A pointer that may be null is an `Option`.
pub mod Laws
use efes_os.Base.{
  ℕ, zero, Bool, true, false, not, ◌&&◌, ◌||◌, Option, none, some, bit_and, bit_or, ◌==◌,
  if◌then◌else◌,
}
use efes_os.Base.Words.{add32}

pub data Observation : Type 0 where
  observe_none : Observation
  observe_complete : Observation
  observe_error : Observation

pub record IrqState : Type 0 where
  pub generation : ℕ
  pub observed_generation : ℕ
  pub observed_status : ℕ
  pub interrupt_count : ℕ
  pub fallback_count : ℕ
  pub enabled : ℕ
  pub active : ℕ

pub irq_reset : Option IrqState → Option IrqState
irq_reset none = none
irq_reset (some s) = some (record {
  generation = 0;
  observed_generation = 0;
  observed_status = 0;
  interrupt_count = 0;
  fallback_count = 0;
  enabled = 0;
  active = 0;
})

pub irq_enable : Option IrqState → Option IrqState
irq_enable none = none
irq_enable (some s) = some (record s { enabled = 1 })

pub irq_disable : Option IrqState → Option IrqState
irq_disable none = none
irq_disable (some s) =
    some (record s { enabled = 0; active = 0; observed_generation = 0; observed_status = 0 })

pub next_generation : ℕ → ℕ
next_generation generation = let next = add32 generation 1 in if next == 0 then 1 else next

pub irq_begin : Option IrqState → ℕ × Option IrqState
irq_begin none = (0, none)
irq_begin (some s) = if (s.enabled == 0) || not (s.active == 0) then (0, some s) else (
  next_generation s.generation,
  some (record s {
    generation = next_generation s.generation;
    observed_generation = 0;
    observed_status = 0;
    active = 1;
  }),
)

pub irq_record : Option IrqState → ℕ → Option IrqState
irq_record none status = none
irq_record (some s) status =
    let counted = record s { interrupt_count = add32 s.interrupt_count 1 } in
    if (s.enabled == 0) || (status == 0)
    then some s
    else if not (s.active == 0)
    then some (record counted {
      observed_status = bit_or s.observed_status status;
      observed_generation = s.generation;
    })
    else some counted

-- What a status reports: an error before a completion.
pub classify : ℕ → ℕ → ℕ → Observation
classify status completion_mask error_mask =
    if not (bit_and status error_mask == 0)
    then observe_error
    else if not (bit_and status completion_mask == 0)
    then observe_complete
    else observe_none

pub irq_observe : Option IrqState → ℕ → ℕ → ℕ → Observation
irq_observe none generation completion_mask error_mask = observe_none
irq_observe (some s) generation completion_mask error_mask =
    if (generation == 0)
      || (s.enabled == 0)
      || (s.active == 0)
      || not (s.generation == generation)
      || not (s.observed_generation == generation)
    then observe_none
    else classify s.observed_status completion_mask error_mask

pub irq_finish : Option IrqState → ℕ → Bool × Option IrqState
irq_finish none generation = (false, none)
irq_finish (some s) generation =
    if (generation == 0) || (s.active == 0) || not (s.generation == generation)
    then (false, some s)
    else (true, some (record s { active = 0; observed_generation = 0; observed_status = 0 }))

pub irq_record_fallback : Option IrqState → Option IrqState
irq_record_fallback none = none
irq_record_fallback (some s) = some (record s { fallback_count = add32 s.fallback_count 1 })

pub irq_is_enabled : Option IrqState → Bool
irq_is_enabled none = false
irq_is_enabled (some s) = not (s.enabled == 0)

pub irq_interrupt_count : Option IrqState → ℕ
irq_interrupt_count none = 0
irq_interrupt_count (some s) = s.interrupt_count

pub irq_fallback_count : Option IrqState → ℕ
irq_fallback_count none = 0
irq_fallback_count (some s) = s.fallback_count

pub irq_status : Option IrqState → ℕ
irq_status none = 0
irq_status (some s) = s.observed_status
