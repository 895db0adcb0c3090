-- ===== src/Ata/Irq/Laws.antt =====
-- What an observation says of the interrupts since its snapshot.
use native.Mathlib.Decide.{dec_lt}
use efes_os.Base.{
  ℕ, suc, ◌+◌, ◌%◌, ◌<◌, ◌≡◌, ap, sym, ◌∙◌, true, false, not, Option, some, ◌==◌, if◌then◌else◌,
  List, [], ◌∷◌, length, arith,
}
use efes_os.Base.Words.{add32}
use efes_os.Ata.Irq.{IrqState, Observation, irq_record, irq_snapshot, irq_observe, classify}

-- The interrupt handler has run once for each status.
pub record_all : Option IrqState → List ℕ → Option IrqState
record_all s [] = s
record_all s (status ∷ more) = record_all (irq_record s status) more

-- The last status, where there is one.
unfoldable pub last_or : ℕ → List ℕ → ℕ
last_or status [] = status
last_or before (status ∷ more) = last_or status more

record_all_lem :
    (s : IrqState) (statuses : List ℕ)
    → s.enabled ≡ true
    → s.sequence < 0x1_0000_0000
    → record_all (some s) statuses
      ≡ some (record s {
        sequence = (s.sequence + length statuses) % 0x1_0000_0000;
        status = last_or s.status statuses;
      })
unfolding record_all last_or irq_record
record_all_lem s [] on small =
    let e : s.sequence ≡ (s.sequence + 0) % 0x1_0000_0000 = omega arith in
    ap (λ n. some (record s { sequence = n })) e
record_all_lem s (status ∷ more) on small =
    ap (λ o. record_all o more) recorded_lem
    ∙ record_all_lem recorded more on (omega arith)
    ∙ ap (λ n. some (record s { sequence = n; status = last_or status more })) sum
  where
    recorded : IrqState
    recorded = record s { status = status; sequence = add32 s.sequence 1 }

    recorded_lem : irq_record (some s) status ≡ some recorded
    recorded_lem = ap (λ b. if not b then some s else some recorded) on

    sum :
        ((s.sequence + 1) % 0x1_0000_0000 + length more) % 0x1_0000_0000
        ≡ (s.sequence + suc (length more)) % 0x1_0000_0000
    sum = omega arith

-- On an enabled channel whose sequence number has 32 bits, an observation after fewer than 2^32
-- interrupts since its snapshot reports nothing where there was none, and otherwise what the last
-- status means.
pub observe-snapshot :
    (s : IrqState) (statuses : List ℕ) (required forbidden busy_mask : ℕ)
    → s.enabled ≡ true
    → s.sequence < 0x1_0000_0000
    → length statuses < 0x1_0000_0000
    → irq_observe
        (record_all (some s) statuses)
        (irq_snapshot (some s))
        required
        forbidden
        busy_mask
      ≡ (if length statuses == 0
          then Observation.observe_none
          else classify (last_or s.status statuses % 0x100) required forbidden busy_mask)
unfolding irq_observe irq_snapshot
observe-snapshot s statuses required forbidden busy_mask on small few =
    let same : ((s.sequence + length statuses) % 0x1_0000_0000 == s.sequence)
        ≡ (length statuses == 0) =
      elim (dec_lt 0 (length statuses)) [
        | yes some_seen ↦
            let a : ((s.sequence + length statuses) % 0x1_0000_0000 == s.sequence) ≡ false =
              ground arith in
            let b : (length statuses == 0) ≡ false = ground arith in a ∙ sym b
        | no none_seen ↦
            let a : ((s.sequence + length statuses) % 0x1_0000_0000 == s.sequence) ≡ true =
              ground arith in
            let b : (length statuses == 0) ≡ true = ground arith in a ∙ sym b
      ] in
    rw (record_all_lem s statuses on small, on)
      (ap
        (λ b.
          if b
          then Observation.observe_none
          else classify (last_or s.status statuses % 0x100) required forbidden busy_mask)
        same)
