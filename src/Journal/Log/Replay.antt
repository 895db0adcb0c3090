-- ===== src/Journal/Log/Replay.antt =====
-- A replay applies the records of the log in order, all of them or those before a read that fails.
use efes_os.Base.{ℕ, zero, suc, ◌+◌, ◌≤◌, ◌≡◌, ◌⊎◌, Bool, true, Option, none, some, ◌==◌}
use efes_os.Journal.{Sector}
use efes_os.Journal.Record.{JournalEntry, decode}
use efes_os.Journal.Log.{lba_at}
use efes_os.Journal.Log.Records.{Records}

-- The first `k` records of the log that the first pass reads, given to the consumer in order.
module _ {Consumer : Type 0} (read : ℕ → Option Sector) (start_lba : ℕ) (entry : JournalEntry)
    (apply : JournalEntry → Consumer → Bool × Consumer) where
  unfoldable pub fed : ℕ → ℕ → Consumer → Consumer
  fed index zero state = state
  fed index (suc k) state = elim (read (lba_at read start_lba entry index)) [
    | none ↦ state
    | some sector ↦ elim (decode (some sector) (some entry)) [
      | none ↦ state
      | some found ↦ fed (index + 1) k (apply found state).1
    ]
  ]

module _ {Consumer : Type 0} (read again : ℕ → Option Sector) (start_lba : ℕ) (entry : JournalEntry)
    (apply : JournalEntry → Consumer → Bool × Consumer)
    (accepts : (e : JournalEntry) (s : Consumer) → (apply e s).0 ≡ true)
    (fails_or_same : (lba : ℕ) → (again lba ≡ none) ⊎ (again lba ≡ read lba)) where
  -- The outcome of a second pass over `count` records from `index` on.
  record Prefix (index count : ℕ) (state : Consumer) (o : Bool × Consumer) : Type 0 where
    pub k : ℕ
    pub bound : k ≤ count
    pub left : o.1 ≡ fed read start_lba entry apply index k state
    pub answer : o.0 ≡ (k == count)
    pub reason : ((k == count) ≡ true) ⊎ (again (lba_at read start_lba entry (index + k)) ≡ none)
