-- ===== src/Ahci/DeviceTable.antt =====
-- drivers/ahci_device_table.c and drivers/ahci_device_table.h: the table of the validated disks. A
-- record's address is its index, which is also the context that its block device hands to the driver.
-- A pointer that may be null is an `Option`.
pub mod Laws
mod Tests
use efes_os.Base.{
  ℕ, zero, suc, ◌+◌, Bool, true, false, not, ◌&&◌, ◌||◌, Option, none, some, is_some, ◌==◌, ltb,
  leb, if◌then◌else◌,
}
use efes_os.Base.Words.{add32}
use efes_os.Base.Arrays.{update}
use efes_os.BlockDevice.{
  BlockDevice, Transfer, block_device_configure, block_device_reset, block_device_is_ready,
}
use efes_os.Ahci.Layout.{Words, identify_capacity, ahci_sector_size, max_transfer_sectors}

abbrev pub table_magic : ℕ
table_magic = 0x4148_4454

abbrev pub table_max : ℕ
table_max = 8

-- ~0U
abbrev pub no_index : ℕ
no_index = 0xFFFF_FFFF

module _ (World Buffer : Type 0) where
  pub record DeviceRecord : Type 0 where
    pub block_device : BlockDevice World ℕ Buffer
    pub identify : Words
    pub sector_count : ℕ
    pub validation_generation : ℕ
    pub controller_index : ℕ
    pub port : ℕ
    pub lba48_supported : Bool

  pub record DeviceTable : Type 0 where
    pub magic : ℕ
    pub count : ℕ
    pub records : ℕ → DeviceRecord

module _ {World Buffer : Type 0} where
  pub reset_device : BlockDevice World ℕ Buffer
  reset_device = record {
    magic = 0;
    sector_count = 0;
    sector_size = 0;
    max_transfer_sectors = 0;
    read = none;
    write = none;
    context = none;
  }

  pub cleared_record : DeviceRecord World Buffer
  cleared_record = record {
    block_device = reset_device;
    identify = λ index. 0;
    sector_count = 0;
    validation_generation = 0;
    controller_index = no_index;
    port = no_index;
    lba48_supported = false;
  }

  pub table_is_valid : Option (DeviceTable World Buffer) → Bool
  table_is_valid none = false
  table_is_valid (some table) = (table.magic == table_magic) && leb table.count table_max

  pub table_reset : Option (DeviceTable World Buffer) → Option (DeviceTable World Buffer)
  table_reset none = none
  table_reset (some table) = some (record {
    magic = table_magic;
    count = 0;
    records = λ index. if ltb index table_max then cleared_record else table.records index;
  })

  -- The `n` rounds of the loop that are left at `index`.
  pub has_port : (ℕ → DeviceRecord World Buffer) → ℕ → ℕ → ℕ → ℕ → Bool
  has_port records controller_index port zero index = false
  has_port records controller_index port (suc n) index =
      let rest = has_port records controller_index port n (index + 1) in
      if ((records index).controller_index == controller_index) && ((records index).port == port)
      then true
      else rest

  -- The record at the end of the table, where its block device could be configured; otherwise it is
  -- cleared.
  pub place :
      Bool
      → Option (BlockDevice World ℕ Buffer)
      → DeviceRecord World Buffer
      → DeviceTable World Buffer
      → Bool × DeviceTable World Buffer
  place true (some configured) filled table = (
    true,
    record table {
      records = update table.records table.count (record filled { block_device = configured });
      count = add32 table.count 1;
    },
  )
  place true none filled table =
      (false, record table { records = update table.records table.count cleared_record })
  place false device filled table =
      (false, record table { records = update table.records table.count cleared_record })

  pub append :
      ℕ
      → ℕ
      → ℕ
      → Words
      → Option (Transfer World ℕ Buffer)
      → ℕ × Bool
      → DeviceTable World Buffer
      → Bool × DeviceTable World Buffer
  append controller_index port validation_generation identify read (sectors, lba48) table =
      let (ok, device) =
        block_device_configure (some reset_device) sectors ahci_sector_size max_transfer_sectors
          read none (some table.count) in
      place ok device
        (record {
          block_device = reset_device;
          identify = λ index. if ltb index 256 then identify index else 0;
          sector_count = sectors;
          validation_generation = validation_generation;
          controller_index = controller_index;
          port = port;
          lba48_supported = lba48;
        })
        table

  pub add :
      Option (DeviceTable World Buffer)
      → ℕ
      → ℕ
      → ℕ
      → Option Words
      → Option (Transfer World ℕ Buffer)
      → Bool × Option (DeviceTable World Buffer)
  add none controller_index port validation_generation identify read = (false, none)
  add (some table) controller_index port validation_generation none read = (false, some table)
  add (some table) controller_index port validation_generation (some identify) read =
      if not (table_is_valid (some table))
        || (table.count == table_max)
        || (controller_index == no_index)
        || leb 32 port
        || (validation_generation == 0)
        || not (is_some read)
      then (false, some table)
      else elim (identify_capacity (some identify)) [
        | none ↦ (false, some table)
        | some capacity ↦
            if has_port table.records controller_index port table.count 0
            then (false, some table)
            else let (ok, after) =
                append controller_index port validation_generation identify read capacity table in
              (ok, some after)
      ]

  pub table_count : Option (DeviceTable World Buffer) → ℕ
  table_count none = 0
  table_count (some table) = if table_is_valid (some table) then table.count else 0

  pub record_at : Option (DeviceTable World Buffer) → ℕ → Option (DeviceRecord World Buffer)
  record_at none index = none
  record_at (some table) index =
      if not (table_is_valid (some table))
        || leb table.count index
        || not (block_device_is_ready (some (table.records index).block_device))
      then none
      else some (table.records index)

  pub block_at : Option (DeviceTable World Buffer) → ℕ → Option (BlockDevice World ℕ Buffer)
  block_at table index = elim (record_at table index) [
    | none ↦ none
    | some found ↦ some found.block_device
  ]
