-- ===== src/BlockDevice.antt =====
-- drivers/block_device.c and include/block_device.h. A driver's transfer functions are functions of the
-- context, the request and the driver's world, which they return with their int result; a pointer that
-- may be null is an `Option`.
pub mod Requests
mod Tests
use efes_os.Base.{
  ℕ, zero, ◌-◌, Bool, true, false, not, ◌&&◌, ◌||◌, Option, none, some, is_some, ◌==◌, ltb, leb,
  if◌then◌else◌,
}

abbrev pub block_device_magic : ℕ
block_device_magic = 0x424C_4B44

abbrev pub sector_size_bytes : ℕ
sector_size_bytes = 512

abbrev pub transfer_max : ℕ
transfer_max = 128

module _ (World Context Buffer : Type 0) where
  abbrev pub Transfer : Type 0
  Transfer = Option Context → ℕ → ℕ → Buffer → World → ℕ × World

  pub record BlockDevice : Type 0 where
    pub magic : ℕ
    pub sector_count : ℕ
    pub sector_size : ℕ
    pub max_transfer_sectors : ℕ
    pub read : Option Transfer
    pub write : Option Transfer
    pub context : Option Context

module _ {World Context Buffer : Type 0} where
  pub block_device_reset :
      Option (BlockDevice World Context Buffer) → Option (BlockDevice World Context Buffer)
  block_device_reset none = none
  block_device_reset (some device) = some (record {
    magic = 0;
    sector_count = 0;
    sector_size = 0;
    max_transfer_sectors = 0;
    read = none;
    write = none;
    context = none;
  })

  unfoldable pub block_device_configure :
      Option (BlockDevice World Context Buffer)
      → ℕ
      → ℕ
      → ℕ
      → Option (Transfer World Context Buffer)
      → Option (Transfer World Context Buffer)
      → Option Context
      → Bool × Option (BlockDevice World Context Buffer)
  block_device_configure none sector_count sector_size max_transfer_sectors read write context =
      (false, none)
  block_device_configure (some device) sector_count sector_size max_transfer_sectors read write
        context =
      if (sector_count == 0)
        || not (sector_size == sector_size_bytes)
        || (max_transfer_sectors == 0)
        || ltb transfer_max max_transfer_sectors
        || not (is_some read)
      then (false, block_device_reset (some device))
      else (
        true,
        some (record {
          magic = block_device_magic;
          sector_count = sector_count;
          sector_size = sector_size;
          max_transfer_sectors = max_transfer_sectors;
          read = read;
          write = write;
          context = context;
        }),
      )

  pub block_device_is_ready : Option (BlockDevice World Context Buffer) → Bool
  block_device_is_ready none = false
  block_device_is_ready (some device) =
      (device.magic == block_device_magic)
      && not (device.sector_count == 0)
      && (device.sector_size == sector_size_bytes)
      && not (device.max_transfer_sectors == 0)
      && leb device.max_transfer_sectors transfer_max
      && is_some device.read

  pub block_device_can_write : Option (BlockDevice World Context Buffer) → Bool
  block_device_can_write none = false
  block_device_can_write (some device) = block_device_is_ready (some device) && is_some device.write

  pub block_device_sector_count : Option (BlockDevice World Context Buffer) → ℕ
  block_device_sector_count none = 0
  block_device_sector_count (some device) =
      if block_device_is_ready (some device) then device.sector_count else 0

  pub request_is_valid : Option (BlockDevice World Context Buffer) → ℕ → ℕ → Option Buffer → Bool
  request_is_valid none lba count buffer = false
  request_is_valid (some device) lba count buffer =
      block_device_is_ready (some device)
      && is_some buffer
      && not (count == 0)
      && leb count device.max_transfer_sectors
      && ltb lba device.sector_count
      && leb count (device.sector_count - lba)

  -- The call through a function pointer that may be null.
  pub dispatch :
      Option (Transfer World Context Buffer)
      → Option Context
      → ℕ
      → ℕ
      → Option Buffer
      → World
      → ℕ × World
  dispatch (some transfer) context lba count (some buffer) world =
      transfer context lba count buffer world
  dispatch none context lba count buffer world = (0, world)
  dispatch (some transfer) context lba count none world = (0, world)

  pub block_device_read :
      Option (BlockDevice World Context Buffer) → ℕ → ℕ → Option Buffer → World → ℕ × World
  block_device_read none lba count buffer world = (0, world)
  block_device_read (some device) lba count buffer world =
      if not (request_is_valid (some device) lba count buffer)
      then (0, world)
      else dispatch device.read device.context lba count buffer world

  pub block_device_write :
      Option (BlockDevice World Context Buffer) → ℕ → ℕ → Option Buffer → World → ℕ × World
  block_device_write none lba count buffer world = (0, world)
  block_device_write (some device) lba count buffer world =
      if not (request_is_valid (some device) lba count buffer) || not (is_some device.write)
      then (0, world)
      else dispatch device.write device.context lba count buffer world
