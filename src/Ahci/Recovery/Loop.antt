-- ===== src/Ahci/Recovery/Loop.antt =====
-- The loop of ahci_block_read in drivers/ahci.c that recovers a drive whose command has failed. The
-- resets and the retry of the command act on a world of any type.
use efes_os.Base.{
  ℕ, zero, suc, ◌≡◌, refl, Bool, true, false, not, ◌||◌, Option, none, some, ◌==◌, if◌then◌else◌,
  Bool-cases, inl, inr,
}
use efes_os.Ahci.Recovery.{
  Action, action_code, RecoveryState, fail_closed, increment_saturating, recovery_begin,
  recovery_advance,
}
use efes_os.Ahci.Recovery.Action.{action_none, port_reset, hba_reset, complete, failed_closed}

module _ {World : Type 0} (reset_port reset_hba retry : World → Bool × World) where
  unfoldable pub is_reset : Action → Bool
  is_reset action =
      (action_code action == action_code port_reset)
      || (action_code action == action_code hba_reset)

  unfoldable pub reset : Action → World → Bool × World
  reset action world =
      if action_code action == action_code port_reset then reset_port world else reset_hba world

  -- The command is issued again only after a reset that went well.
  unfoldable pub retry_after : Bool × World → Bool × World
  retry_after (reset_ok, world) = if reset_ok then retry world else (false, world)

  -- The loop, of which `fuel` tests are left; `none` where they run out. The result says whether the
  -- command went well.
  unfoldable pub recover_from :
      ℕ → Action → Option RecoveryState → World → Option (Bool × (Option RecoveryState × World))
  recover_from zero action state world = none
  recover_from (suc fuel) action state world =
      let (reset_ok, after_reset) = reset action world in
      let (retry_ok, after) = retry_after (reset_ok, after_reset) in
      let (next, state') = recovery_advance state action reset_ok retry_ok in
      let rest = recover_from fuel next state' after in
      if not (is_reset action)
      then some (false, (state, world))
      else if action_code next == action_code complete
      then some (true, (state', after))
      else rest

  unfoldable pub recover :
      ℕ → Option RecoveryState → World → Option (Bool × (Option RecoveryState × World))
  recover fuel state world =
      let (action, begun) = recovery_begin state in recover_from fuel action begun world

  -- A reset and the retry behind it.
  pub attempt : (World → Bool × World) → World → Bool × World
  attempt by world = if (by world).0 then retry (by world).1 else (false, (by world).1)

  second_lem :
      (fuel port hba completions : ℕ) (world : World)
      → let s : RecoveryState = record {
        action = hba_reset;
        port_attempts = port;
        hba_attempts = hba;
        completions = completions;
      } in
        let good = (attempt reset_hba world).0 in
        (t : RecoveryState) × (recover_from (suc (suc fuel)) hba_reset (some s) world
          ≡ some (good, (some t, (attempt reset_hba world).1)))
        × (t.action ≡ (if good then action_none else failed_closed))
        × (t.completions ≡ (if good then increment_saturating completions else completions))
  unfolding recover_from is_reset reset retry_after recovery_advance fail_closed action_code attempt
  second_lem fuel port hba completions world = elim (Bool-cases (reset_hba world).0) [
    | inl a ↦ elim (Bool-cases (retry (reset_hba world).1).0) [
      | inl b ↦ rw (a, b) (_, refl, refl, refl)
      | inr b ↦ rw (a, b) (_, refl, refl, refl)
    ]
    | inr a ↦ rw a (_, refl, refl, refl)
  ]

  -- From an idle state, the loop ends after at most a reset of the port and one of the controller,
  -- whatever they do: three tests of its condition are enough, and more change nothing. The second
  -- reset happens only where the first attempt has failed. The command went well if one of the attempts
  -- did; then the state is idle again, with one completion more, and otherwise it has failed.
  pub recover_lem :
      (fuel : ℕ) (s : RecoveryState) (world : World)
      → s.action ≡ action_none
      → let first = attempt reset_port world in
        let second = attempt reset_hba first.1 in
        let good = first.0 || second.0 in
        (t : RecoveryState) × (recover (suc (suc (suc fuel))) (some s) world
          ≡ some (good, (some t, (if first.0 then first.1 else second.1))))
        × (t.action ≡ (if good then action_none else failed_closed))
        × (t.completions ≡ (if good then increment_saturating s.completions else s.completions))
  unfolding recover recover_from is_reset reset retry_after recovery_begin recovery_advance
      fail_closed action_code attempt
  recover_lem fuel s world idle = elim (Bool-cases (reset_port world).0) [
    | inl a ↦ elim (Bool-cases (retry (reset_port world).1).0) [
      | inl b ↦ rw (idle, a, b) (_, refl, refl, refl)
      | inr b ↦ rw (idle, a, b) (second_lem fuel _ _ _ (retry (reset_port world).1).1)
    ]
    | inr a ↦ rw (idle, a) (second_lem fuel _ _ _ (reset_port world).1)
  ]
