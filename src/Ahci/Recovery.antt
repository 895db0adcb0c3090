-- ===== src/Ahci/Recovery.antt =====
-- drivers/ahci_recovery_state.c and drivers/ahci_recovery_state.h: which reset comes next after an
-- error. The `action` field holds only values of the enumeration. A pointer that may be null is an
-- `Option`.
pub mod Laws
pub mod Loop
use efes_os.Base.{
  ℕ, ◌+◌, Bool, true, false, not, ◌&&◌, ◌||◌, Option, none, some, ◌==◌, if◌then◌else◌,
}

pub data Action : Type 0 where
  action_none : Action
  port_reset : Action
  hba_reset : Action
  complete : Action
  failed_closed : Action

-- The number of an enumerator, by which the source compares two.
unfoldable pub action_code : Action → ℕ
action_code action_none = 0
action_code port_reset = 1
action_code hba_reset = 2
action_code complete = 3
action_code failed_closed = 4

pub record RecoveryState : Type 0 where
  pub action : Action
  pub port_attempts : ℕ
  pub hba_attempts : ℕ
  pub completions : ℕ

pub fail_closed : Option RecoveryState → Action × Option RecoveryState
fail_closed none = (failed_closed, none)
fail_closed (some s) = (failed_closed, some (record s { action = failed_closed }))

unfoldable pub increment_saturating : ℕ → ℕ
increment_saturating value = if value == 0xFFFF_FFFF then value else value + 1

unfoldable pub recovery_reset : Option RecoveryState → Option RecoveryState
recovery_reset none = none
recovery_reset (some s) =
    some (record { action = action_none; port_attempts = 0; hba_attempts = 0; completions = 0 })

unfoldable pub recovery_begin : Option RecoveryState → Action × Option RecoveryState
recovery_begin none = fail_closed none
recovery_begin (some s) =
    if not (action_code s.action == action_code action_none) then fail_closed (some s) else (
      port_reset,
      some (record s { action = port_reset; port_attempts = increment_saturating s.port_attempts }),
    )

pub recovery_advance : Option RecoveryState → Action → Bool → Bool → Action × Option RecoveryState
recovery_advance none completed_action reset_succeeded retry_succeeded = fail_closed none
recovery_advance (some s) completed_action reset_succeeded retry_succeeded =
    let is_port = action_code completed_action == action_code port_reset in
    if not is_port && not (action_code completed_action == action_code hba_reset)
      || not (action_code s.action == action_code completed_action)
      || not reset_succeeded && retry_succeeded
    then fail_closed (some s)
    else if reset_succeeded && retry_succeeded
    then (
      complete,
      some (record s { action = action_none; completions = increment_saturating s.completions }),
    )
    else if is_port
    then (
      hba_reset,
      some (record s { action = hba_reset; hba_attempts = increment_saturating s.hba_attempts }),
    )
    else fail_closed (some s)

unfoldable pub recovery_is_failed : Option RecoveryState → Bool
recovery_is_failed none = true
recovery_is_failed (some s) = action_code s.action == action_code failed_closed

pub recovery_port_attempts : Option RecoveryState → ℕ
recovery_port_attempts none = 0
recovery_port_attempts (some s) = s.port_attempts

pub recovery_hba_attempts : Option RecoveryState → ℕ
recovery_hba_attempts none = 0
recovery_hba_attempts (some s) = s.hba_attempts

pub recovery_completions : Option RecoveryState → ℕ
recovery_completions none = 0
recovery_completions (some s) = s.completions
