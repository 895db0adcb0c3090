-- ===== src/Ahci/Tests.antt =====
-- A port's interrupts, its recovery and its commands at concrete values.
use efes_os.Base.{
  ℕ, Bool, ◌≡◌, ◌≢◌, ◌+◌, refl, true, some, [], ◌∷◌, arith, ◌==◌, if◌then◌else◌, ◌||◌,
}
use efes_os.Ahci.Irq.{IrqState, Observation, irq_begin, irq_observe, irq_finish, next_generation}
use efes_os.Ahci.Irq.Laws.{record_all, begin-finish}
use efes_os.Ahci.Recovery.{
  Action, RecoveryState, recovery_begin, recovery_advance, recovery_is_failed, recovery_reset,
  increment_saturating,
}
use efes_os.Ahci.Recovery.Laws.{Reaches, Counted, Reaches-Counted}
use efes_os.Ahci.Recovery.Loop.{attempt, recover, recover_lem}
use efes_os.Ahci.Layout.{CommandHeader, CommandTable}

-- The generation is about to wrap, and skips 0.
abbrev idle_port : IrqState
idle_port = record {
  generation = 0xFFFF_FFFF;
  observed_generation = 7;
  observed_status = 3;
  interrupt_count = 9;
  fallback_count = 0;
  enabled = 1;
  active = 0;
}

begin-finish_example :
    let (generation, begun) = irq_begin (some idle_port) in
    let during = record_all begun (1 ∷ []) in
    let (ended, end) = irq_finish during 1 in
    (ended ≡ (1 == generation))
    × (1 ≢ generation → end ≡ during)
    × (1 ≡ generation → irq_observe end 1 1 0x4000_0000 ≡ Observation.observe_none)
    × (1 ≡ generation → (irq_begin end).0 ≡ next_generation generation)
begin-finish_example =
    begin-finish idle_port (1 ∷ []) 1 1 1 0x4000_0000 (λ e. absurd (omega arith)) refl

abbrev fresh_state : RecoveryState
fresh_state = record {
  action = Action.action_none;
  port_attempts = 0;
  hba_attempts = 0;
  completions = 0;
}

abbrev begun_state : RecoveryState
begun_state = record {
  action = Action.port_reset;
  port_attempts = 1;
  hba_attempts = 0;
  completions = 0;
}

abbrev failed_state : RecoveryState
failed_state = record {
  action = Action.failed_closed;
  port_attempts = 1;
  hba_attempts = 1;
  completions = 0;
}

begun-Reaches : Reaches begun_state
unfolding recovery_reset recovery_begin efes_os.Ahci.Recovery.action_code
    efes_os.Ahci.Recovery.increment_saturating
begun-Reaches =
    Reaches.begun fresh_state begun_state (Reaches.fresh fresh_state fresh_state refl) refl

Reaches-Counted_example : Counted begun_state
Reaches-Counted_example = Reaches-Counted begun_state begun-Reaches

-- The world counts the resets, and the command goes well behind the second one.
abbrev reset_once : ℕ → Bool × ℕ
reset_once resets = (true, resets + 1)

abbrev retry_twice : ℕ → Bool × ℕ
retry_twice resets = (resets == 2, resets)

recover_lem_example :
    let first = attempt reset_once reset_once retry_twice reset_once 0 in
    let second = attempt reset_once reset_once retry_twice reset_once first.1 in
    let good = first.0 || second.0 in
    (t : RecoveryState) × (recover reset_once reset_once retry_twice 5 (some fresh_state) 0
      ≡ some (good, (some t, (if first.0 then first.1 else second.1))))
    × (t.action ≡ (if good then Action.action_none else Action.failed_closed))
    × (t.completions ≡ (if good then increment_saturating 0 else 0))
recover_lem_example = recover_lem reset_once reset_once retry_twice 2 fresh_state 0 refl

abbrev some_header : CommandHeader
some_header = record {
  flags = 0;
  prdt_length = 0;
  prd_byte_count = 0;
  command_table_base = 0;
  command_table_base_upper = 0;
  reserved = [];
}

abbrev some_table : CommandTable
some_table = record {
  command_fis = [];
  atapi_command = [];
  reserved = [];
  prdt = record { data_base = 0; data_base_upper = 0; reserved = 0; byte_count_and_flags = 0 };
}
