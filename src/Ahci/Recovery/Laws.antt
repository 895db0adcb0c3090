-- ===== src/Ahci/Recovery/Laws.antt =====
-- Histories of a recovery state, and the resets one recovery can take.
use mathlib.Core.Option.{some-injective}
use efes_os.Base.{
  ℕ, ◌+◌, ◌≤◌, ◌≡◌, ◌⊎◌, refl, Bool, true, not, ◌&&◌, ◌||◌, Option, some, ◌==◌, arith, if_each, min,
  subst,
}
use efes_os.Ahci.Recovery.{
  Action, action_code, RecoveryState, fail_closed, increment_saturating, recovery_reset,
  recovery_begin, recovery_advance, recovery_is_failed,
}
use efes_os.Ahci.Recovery.Action.{action_none, port_reset, failed_closed}

-- The state after a call on it.
abbrev pub after : Action × Option RecoveryState → Option RecoveryState
after o = o.1

-- The states that calls with any arguments reach from a reset.
pub data Reaches : RecoveryState → Type 0 where
  fresh : (s t : RecoveryState) → recovery_reset (some s) ≡ some t → Reaches t
  begun : (s t : RecoveryState) → Reaches s → after (recovery_begin (some s)) ≡ some t → Reaches t
  advanced :
      (s t : RecoveryState) (done : Action) (reset_ok retry_ok : Bool)
      → Reaches s
      → after (recovery_advance (some s) done reset_ok retry_ok) ≡ some t
      → Reaches t

abbrev counter_max : ℕ
counter_max = 0xFFFF_FFFF

-- Completed recoveries and controller resets are never more than port resets; while an action is
-- under way its port reset is counted and its completion is not.
pub record Counted (s : RecoveryState) : Type 0 where
  pub port_bound : s.port_attempts ≤ counter_max
  pub hba_bound : s.hba_attempts ≤ s.port_attempts
  pub completion_bound : s.completions ≤ s.port_attempts
  pub hba_room : action_code s.action ≡ 1 → min (s.hba_attempts + 1) counter_max ≤ s.port_attempts
  pub completion_room :
      (action_code s.action ≡ 1) ⊎ (action_code s.action ≡ 2)
      → min (s.completions + 1) counter_max ≤ s.port_attempts

increment_saturating_lem :
    (n : ℕ) → n ≤ counter_max → increment_saturating n ≡ min (n + 1) counter_max
unfolding increment_saturating
increment_saturating_lem n h = ground arith

fail_closed-Counted :
    (s : RecoveryState) → Counted s → Counted (record s { action = failed_closed })
unfolding action_code
fail_closed-Counted s c = record {
  port_bound = c.port_bound;
  hba_bound = c.hba_bound;
  completion_bound = c.completion_bound;
  hba_room = λ e. absurd (omega arith);
  completion_room = λ e. absurd (ground arith);
}

-- A predicate on the state a call leaves.
abbrev Holds : Option RecoveryState → Type 0
Holds o = (t : RecoveryState) → o ≡ some t → Counted t

Holds-some : (s : RecoveryState) → Counted s → Holds (some s)
Holds-some s c t e = subst Counted (some-injective s t e) c

begin-Counted : (s : RecoveryState) → Counted s → Holds (after (recovery_begin (some s)))
unfolding recovery_begin fail_closed
begin-Counted s c =
    if_each (λ (o : Action × Option RecoveryState). Holds o.1)
      (not (action_code s.action == action_code action_none)) _ _
      (λ busy. Holds-some _ (fail_closed-Counted s c)) (λ idle. Holds-some _ started)
  where
    counted : increment_saturating s.port_attempts ≡ min (s.port_attempts + 1) counter_max
    counted = increment_saturating_lem s.port_attempts c.port_bound

    started :
        Counted
          (record s { action = port_reset; port_attempts = increment_saturating s.port_attempts })
    started = record {
      port_bound = omega (arith, counted);
      hba_bound = omega (arith, counted, c.hba_bound, c.port_bound);
      completion_bound = omega (arith, counted, c.completion_bound, c.port_bound);
      hba_room = λ e. omega (arith, counted, c.hba_bound);
      completion_room = λ e. omega (arith, counted, c.completion_bound);
    }

advance-Counted :
    (s : RecoveryState) (done : Action) (reset_ok retry_ok : Bool)
    → Counted s
    → Holds (after (recovery_advance (some s) done reset_ok retry_ok))
unfolding recovery_advance fail_closed action_code
advance-Counted s done reset_ok retry_ok c =
    if_each Leaves
      (not (action_code done == 1) && not (action_code done == 2)
        || not (action_code s.action == action_code done)
        || not reset_ok && retry_ok)
      _ _ (λ refused. Holds-some _ (fail_closed-Counted s c))
      (λ allowed.
        if_each Leaves (reset_ok && retry_ok) _ _
          (λ succeeded. Holds-some _ (record {
            port_bound = c.port_bound;
            hba_bound = c.hba_bound;
            completion_bound = omega (
              arith,
              increment_saturating_lem s.completions
                  (omega (arith, c.completion_bound, c.port_bound)),
              c.completion_room (ground arith),
            );
            hba_room = λ e. absurd (omega arith);
            completion_room = λ e. absurd (ground arith);
          }))
          (λ failed.
            if_each Leaves (action_code done == 1) _ _
              (λ port. Holds-some _ (record {
                port_bound = c.port_bound;
                hba_bound = omega (
                  arith,
                  increment_saturating_lem s.hba_attempts
                      (omega (arith, c.hba_bound, c.port_bound)),
                  c.hba_room (ground arith),
                );
                completion_bound = c.completion_bound;
                hba_room = λ e. absurd (omega arith);
                completion_room = λ e. c.completion_room (ground arith);
              }))
              (λ hba. Holds-some _ (fail_closed-Counted s c))))
  where
    Leaves : Action × Option RecoveryState → Type 0
    Leaves o = Holds o.1

-- In every state that calls reach from a reset, the counters are 32-bit numbers, and the controller
-- resets and the completed recoveries are no more than the port resets.
pub Reaches-Counted : (s : RecoveryState) → Reaches s → Counted s
unfolding recovery_reset action_code
Reaches-Counted t (fresh s u e) = Holds-some _ zeroes t e
  where
    zeroes :
        Counted
          (record { action = action_none; port_attempts = 0; hba_attempts = 0; completions = 0 })
    zeroes = record {
      port_bound = omega arith;
      hba_bound = omega arith;
      completion_bound = omega arith;
      hba_room = λ e. absurd (omega arith);
      completion_room = λ e. absurd (ground arith);
    }
Reaches-Counted t (begun s u r e) = begin-Counted s (Reaches-Counted s r) t e
Reaches-Counted t (advanced s u done reset_ok retry_ok r e) =
    advance-Counted s done reset_ok retry_ok (Reaches-Counted s r) t e

-- A state that has failed stays failed through every call but the reset, whatever its arguments.
pub failed-stays :
    (s : RecoveryState) (done : Action) (reset_ok retry_ok : Bool)
    → recovery_is_failed (some s) ≡ true
    → (recovery_is_failed (recovery_begin (some s)).1 ≡ true)
      × (recovery_is_failed (recovery_advance (some s) done reset_ok retry_ok).1 ≡ true)
unfolding recovery_begin recovery_advance fail_closed recovery_is_failed action_code
failed-stays s done reset_ok retry_ok failed = (
  if_each Fails (not (action_code s.action == 0)) _ _ (λ h. refl) (λ h. absurd (ground arith)),
  if_each Fails
      (not (action_code done == 1) && not (action_code done == 2)
        || not (action_code s.action == action_code done)
        || not reset_ok && retry_ok)
      _ _ (λ h. refl) (λ h. absurd (ground arith)),
)
  where
    Fails : Action × Option RecoveryState → Type 0
    Fails o = recovery_is_failed o.1 ≡ true
