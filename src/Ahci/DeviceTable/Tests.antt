-- ===== src/Ahci/DeviceTable/Tests.antt =====
-- Registrations at concrete disks.
use efes_os.Base.{ℕ, ◌≡◌, refl, Option, some, none, [], ◌∷◌, ◌==◌, if◌then◌else◌}
use efes_os.BlockDevice.{Transfer, block_device_configure}
use efes_os.Ahci.Layout.{Words, identify_capacity}
use efes_os.Ahci.DeviceTable.{
  DeviceTable, table_reset, add, append, place, has_port, table_is_valid, cleared_record,
}
use efes_os.Ahci.DeviceTable.Laws.{
  Registration, register, register_all, register_all-Listed, Listed,
}

abbrev no_transfer : Transfer ℕ ℕ ℕ
no_transfer context lba count buffer world = (0, world)

-- A disk of 100 sectors with 28-bit addresses.
abbrev small_disk : Words
small_disk index = if index == 49 then 0x0200 else if index == 60 then 100 else 0

abbrev first_port : Registration ℕ ℕ
first_port = record {
  controller_index = 1;
  port = 4;
  validation_generation = 9;
  identify = some small_disk;
  read = some no_transfer;
}

abbrev blank_table : DeviceTable ℕ ℕ
blank_table = record { magic = 0; count = 77; records = λ index. cleared_record }

-- The second registration names the same port and is refused.
abbrev registered : Option (DeviceTable ℕ ℕ)
registered = register_all (first_port ∷ first_port ∷ []) (table_reset (some blank_table))

one_disk : DeviceTable ℕ ℕ
unfolding register_all register table_reset add append place has_port table_is_valid
    identify_capacity block_device_configure
one_disk = elim registered [ some t ↦ t | none ↦ blank_table ]

one_disk-count : one_disk.count ≡ 1
unfolding one_disk
one_disk-count = refl

register_all-Listed_example : Listed one_disk
unfolding one_disk register_all register table_reset add append place has_port table_is_valid
    identify_capacity block_device_configure
register_all-Listed_example =
    register_all-Listed (first_port ∷ first_port ∷ []) blank_table one_disk refl
