-- ===== src/BlockDevice/Requests.antt =====
-- Which requests reach a driver, and what holds through any sequence of them.
use efes_os.Base.{
  ℕ, ◌+◌, ◌≤◌, ◌≡◌, refl, ap, sym, Bool, true, false, not, ◌&&◌, ◌||◌, Option, none, some, is_some,
  ◌==◌, ltb, leb, if◌then◌else◌, arith, if_each, List, [], ◌∷◌,
}
use efes_os.BlockDevice.{
  BlockDevice, Transfer, block_device_configure, block_device_can_write, block_device_reset,
  block_device_is_ready, request_is_valid, dispatch, block_device_read, block_device_write,
  block_device_sector_count, sector_size_bytes, transfer_max,
}

-- A transfer of `count` sectors from `lba` on that a device of `sectors` sectors can carry out.
pub record InRange (sectors lba count : ℕ) : Type 0 where
  pub some_sectors : 1 ≤ count
  pub one_transfer : count ≤ 128
  pub inside : lba + count ≤ sectors

-- A call of the block layer.
pub data Request (Buffer : Type 0) : Type 0 where
  read_request : (lba count : ℕ) (buffer : Option Buffer) → Request Buffer
  write_request : (lba count : ℕ) (buffer : Option Buffer) → Request Buffer

module _ {World Context Buffer : Type 0} where
  -- The configuration succeeds exactly where it leaves the device ready, whatever the device was. The
  -- capacity is then the one asked for and otherwise none, and the device takes writes exactly where
  -- it is ready and has a write function.
  pub block_device_configure-is_ready :
      (device : BlockDevice World Context Buffer) (sectors size max_transfer : ℕ)
      (read write : Option (Transfer World Context Buffer)) (context : Option Context)
      → let (ok, after) =
          block_device_configure (some device) sectors size max_transfer read write context in
        (ok ≡ block_device_is_ready after)
        × (block_device_sector_count after ≡ (if ok then sectors else 0))
        × (block_device_can_write after ≡ (ok && is_some write))
  unfolding block_device_configure block_device_is_ready block_device_reset
      block_device_sector_count block_device_can_write
  block_device_configure-is_ready device sectors size max_transfer read write context =
      if_each Agrees
        ((sectors == 0)
          || not (size == sector_size_bytes)
          || (max_transfer == 0)
          || ltb transfer_max max_transfer
          || not (is_some read))
        (false, block_device_reset (some device)) (true, some configured)
        (λ refused. (refl, refl, refl))
        (λ accepted.
          let ready : (not (sectors == 0)
                && (size == sector_size_bytes)
                && not (max_transfer == 0)
                && leb max_transfer transfer_max
                && is_some read)
              ≡ true =
            ground arith in
          (sym ready, ap (λ b. if b then sectors else 0) ready, ap (λ b. b && is_some write) ready))
    where
      configured : BlockDevice World Context Buffer
      configured = record {
        magic = 0x424C_4B44;
        sector_count = sectors;
        sector_size = size;
        max_transfer_sectors = max_transfer;
        read = read;
        write = write;
        context = context;
      }

      Agrees : Bool × Option (BlockDevice World Context Buffer) → Type 0
      Agrees o =
          (o.0 ≡ block_device_is_ready o.1)
          × (block_device_sector_count o.1 ≡ (if o.0 then sectors else 0))
          × (block_device_can_write o.1 ≡ (o.0 && is_some write))

  request_is_valid-InRange :
      (device : BlockDevice World Context Buffer) (lba count : ℕ) (buffer : Option Buffer)
      → request_is_valid (some device) lba count buffer ≡ true
      → InRange device.sector_count lba count
  unfolding request_is_valid block_device_is_ready
  request_is_valid-InRange device lba count buffer h = record {
    some_sectors = ground arith;
    one_transfer = ground arith;
    inside = ground arith;
  }

  pub perform : BlockDevice World Context Buffer → Request Buffer → World → World
  perform device (read_request lba count buffer) world =
      (block_device_read (some device) lba count buffer world).1
  perform device (write_request lba count buffer) world =
      (block_device_write (some device) lba count buffer world).1

  pub perform_all : BlockDevice World Context Buffer → List (Request Buffer) → World → World
  perform_all device [] world = world
  perform_all device (r ∷ rs) world = perform_all device rs (perform device r world)

  -- What a driver promises: a transfer in range keeps its invariant.
  unfoldable pub Keeps : (World → Type 0) → ℕ → Transfer World Context Buffer → Type 0
  Keeps Inv sectors transfer =
      (context : Option Context) (lba count : ℕ) (buffer : Buffer) (world : World)
      → InRange sectors lba count
      → Inv world
      → Inv (transfer context lba count buffer world).1

  dispatch-Keeps :
      (Inv : World → Type 0) (sectors : ℕ) (transfer : Option (Transfer World Context Buffer))
      → ((t : Transfer World Context Buffer) → transfer ≡ some t → Keeps Inv sectors t)
      → (context : Option Context) (lba count : ℕ) (buffer : Option Buffer) (world : World)
      → InRange sectors lba count
      → Inv world
      → Inv (dispatch transfer context lba count buffer world).1
  unfolding Keeps dispatch
  dispatch-Keeps Inv sectors none k context lba count buffer world range inv = inv
  dispatch-Keeps Inv sectors (some t) k context lba count none world range inv = inv
  dispatch-Keeps Inv sectors (some t) k context lba count (some b) world range inv =
      k t refl context lba count b world range inv

  module _ (Inv : World → Type 0) (device : BlockDevice World Context Buffer)
      (reads : (t : Transfer World Context Buffer)
        → device.read ≡ some t
        → Keeps Inv device.sector_count t)
      (writes : (t : Transfer World Context Buffer)
        → device.write ≡ some t
        → Keeps Inv device.sector_count t) where
    perform-Keeps : (r : Request Buffer) (world : World) → Inv world → Inv (perform device r world)
    unfolding perform block_device_read block_device_write
    perform-Keeps (read_request lba count buffer) world inv =
        if_each (λ (o : ℕ × World). Inv o.1) (not (request_is_valid (some device) lba count buffer))
          _ _ (λ refused. inv)
          (λ valid.
            dispatch-Keeps Inv device.sector_count device.read reads device.context lba count buffer
              world (request_is_valid-InRange device lba count buffer (ground arith)) inv)
    perform-Keeps (write_request lba count buffer) world inv =
        if_each (λ (o : ℕ × World). Inv o.1)
          (not (request_is_valid (some device) lba count buffer) || not (is_some device.write)) _ _
          (λ refused. inv)
          (λ valid.
            dispatch-Keeps Inv device.sector_count device.write writes device.context lba count
              buffer world (request_is_valid-InRange device lba count buffer (ground arith)) inv)

    -- An invariant that the driver's functions keep for transfers of 1 to 128 sectors inside the device
    -- is kept by every sequence of reads and writes, whatever sectors, counts and buffers they name.
    pub perform_all-Keeps :
        (rs : List (Request Buffer)) (world : World) → Inv world → Inv (perform_all device rs world)
    unfolding perform_all
    perform_all-Keeps [] world inv = inv
    perform_all-Keeps (r ∷ rs) world inv =
        perform_all-Keeps rs (perform device r world) (perform-Keeps r world inv)
