-- ===== src/Fat/Complete.antt =====
-- fat_read_file of fs/fat.c and the bytes of the file that a path names.
use efes_os.Base.{ℕ, ◌≡◌, Bool, true, some}
use efes_os.Fat.{FatVolume, read_u16, read_u32}
use efes_os.Fat.Contents.{file_byte}

-- All of the entry's file, where it is read.
abbrev Complete : FatVolume → (ℕ → ℕ) → ℕ → Bool × (ℕ × (ℕ → ℕ)) → Type 0
Complete v entry j r =
    r.0 ≡ true → (r.1.0 ≡ read_u32 entry 28) × (file_byte v (read_u16 entry 26) j ≡ some (r.1.1 j))
