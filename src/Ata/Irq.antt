-- ===== src/Ata/Irq.antt =====
-- drivers/ata_irq_state.c and drivers/ata_irq_state.h: what the interrupts of the channel have reported
-- since a snapshot. A pointer that may be null is an `Option`.
pub mod Laws
use efes_os.Base.{
  ℕ, Bool, true, false, not, ◌&&◌, ◌||◌, ◌%◌, Option, none, some, bit_and, ◌==◌, if◌then◌else◌,
}
use efes_os.Base.Words.{add32}

pub data Observation : Type 0 where
  observe_error : Observation
  observe_none : Observation
  observe_ready : Observation
  observe_pending : Observation

pub record IrqState : Type 0 where
  pub sequence : ℕ
  pub status : ℕ
  pub fallback_count : ℕ
  pub enabled : Bool

pub irq_reset : Option IrqState → Option IrqState
irq_reset none = none
irq_reset (some s) = some (record { sequence = 0; status = 0; fallback_count = 0; enabled = false })

pub irq_enable : Option IrqState → Option IrqState
irq_enable none = none
irq_enable (some s) = some (record s { enabled = true })

pub irq_disable : Option IrqState → Option IrqState
irq_disable none = none
irq_disable (some s) = some (record s { enabled = false })

pub irq_record : Option IrqState → ℕ → Option IrqState
irq_record none status = none
irq_record (some s) status =
    if not s.enabled
    then some s
    else some (record s { status = status; sequence = add32 s.sequence 1 })

pub irq_snapshot : Option IrqState → ℕ
irq_snapshot none = 0
irq_snapshot (some s) = s.sequence

pub irq_count : Option IrqState → ℕ
irq_count s = irq_snapshot s

pub irq_status : Option IrqState → ℕ
irq_status none = 0
irq_status (some s) = s.status

pub irq_fallback_count : Option IrqState → ℕ
irq_fallback_count none = 0
irq_fallback_count (some s) = s.fallback_count

pub irq_is_enabled : Option IrqState → Bool
irq_is_enabled none = false
irq_is_enabled (some s) = s.enabled

pub irq_record_fallback : Option IrqState → Option IrqState
irq_record_fallback none = none
irq_record_fallback (some s) = some (record s { fallback_count = add32 s.fallback_count 1 })

-- An error comes before a busy drive, and that before a missing bit.
unfoldable pub classify : ℕ → ℕ → ℕ → ℕ → Observation
classify status required forbidden busy_mask =
    if not (bit_and status forbidden == 0)
    then observe_error
    else if not (bit_and status busy_mask == 0) || not (bit_and status required == required)
    then observe_pending
    else observe_ready

pub irq_observe : Option IrqState → ℕ → ℕ → ℕ → ℕ → Observation
irq_observe none snapshot required forbidden busy_mask = observe_none
irq_observe (some s) snapshot required forbidden busy_mask =
    if not s.enabled || (s.sequence == snapshot)
    then observe_none
    else classify (s.status % 0x100) required forbidden busy_mask
