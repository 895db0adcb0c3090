-- ===== src/BlockDevice/Tests.antt =====
-- A memory of four sectors behind the block layer.
use mathlib.Core.Option.{some-injective, none-ne-some}
use efes_os.Base.{
  ℕ, ◌+◌, ◌≤◌, ◌≡◌, Option, some, none, List, [], ◌∷◌, arith, if◌then◌else◌, leb, subst, if_both,
}
use efes_os.BlockDevice.{BlockDevice, Transfer}
use efes_os.BlockDevice.Requests.{InRange, Request, Keeps, perform_all, perform_all-Keeps}

-- The world is the end of the furthest transfer so far.
abbrev touch : Transfer ℕ ℕ ℕ
touch context lba count buffer world = (1, if leb world (lba + count) then lba + count else world)

abbrev four_sectors : BlockDevice ℕ ℕ ℕ
four_sectors = record {
  magic = 0x424C_4B44;
  sector_count = 4;
  sector_size = 512;
  max_transfer_sectors = 128;
  read = some touch;
  write = none;
  context = none;
}

abbrev Inside : ℕ → Type 0
Inside world = world ≤ 4

touch-Keeps : (t : Transfer ℕ ℕ ℕ) → some touch ≡ some t → Keeps Inside 4 t
unfolding Keeps
touch-Keeps t e =
    subst
      (λ f.
        (context : Option ℕ) (lba count buffer world : ℕ)
        → InRange 4 lba count
        → world ≤ 4
        → (f context lba count buffer world).1 ≤ 4)
      (some-injective touch t e)
      (λ context lba count buffer world range inside.
        if_both (λ n. n ≤ 4) (leb world (lba + count)) _ _ range.inside inside)

no_write : (t : Transfer ℕ ℕ ℕ) → none ≡ some t → Keeps Inside 4 t
no_write t e = absurd (none-ne-some t e)

-- A read past the end, a write without a write function and a read that fits.
abbrev requests : List (Request ℕ)
requests =
    Request.read_request 3 2 (some 0)
    ∷ Request.write_request 0 1 (some 0)
    ∷ Request.read_request 2 2 (some 0)
    ∷ []

perform_all-Keeps_example : Inside (perform_all four_sectors requests 0)
perform_all-Keeps_example =
    perform_all-Keeps Inside four_sectors touch-Keeps no_write requests 0 (omega arith)
