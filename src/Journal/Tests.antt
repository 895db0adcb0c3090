-- ===== src/Journal/Tests.antt =====
-- A superblock and a record at concrete values.
use efes_os.Base.{ℕ, ◌<◌, ◌≡◌, refl, inl, some, none, false, ◌==◌, ◌>>=◌, if◌then◌else◌, arith}
use efes_os.Journal.{Sector, superblock_encode, superblock_decode}
use efes_os.Journal.Superblock.{superblock_decode-encode}
use efes_os.Journal.Record.{
  JournalEntry, bounded_length, bounded_from, valid_name, valid_bytes, encode, decode,
}
use efes_os.Journal.Record.RoundTrip.{decode-encode}
use efes_os.Journal.Record.Prepared.{decode-prepared}
use efes_os.Journal.Record.{encode_internal, record_fields}
use efes_os.Journal.{write_u32, record_crc}

superblock_decode-encode_example :
    (superblock_encode (some (λ index. 0xFF)) 63 >>= λ encoded. superblock_decode (some encoded))
    ≡ some 63
superblock_decode-encode_example = superblock_decode-encode (λ index. 0xFF) 63 (omega arith)

-- "NOTE"
abbrev note : ℕ → ℕ
note index =
    if index == 0
    then 78
    else if index == 1
    then 79
    else if index == 2
    then 84
    else if index == 3
    then 69
    else 0

abbrev safe : ℕ → ℕ
safe index = if index == 0 then 115 else 97

abbrev blank_entry : JournalEntry
blank_entry = record {
  operation = 0;
  sequence = 0;
  name_length = 0;
  content_length = 0;
  name = λ index. 0;
  content = λ index. 0;
}

note-byte : (i : ℕ) → note i < 0x100
note-byte i = ground arith

decode-encode_example :
    (encoded : Sector) × (entry : JournalEntry) × (encode
        (some (λ index. 0xFF))
        1
        7
        (some note)
        (some safe)
        2
      ≡ some encoded)
    × (decode (some encoded) (some blank_entry) ≡ some entry)
    × (entry.operation ≡ 1)
    × (entry.sequence ≡ 7)
    × (entry.name_length ≡ bounded_length (some note) 32)
    × (entry.content_length ≡ 2)
    × ((i : ℕ) → i < bounded_length (some note) 32 → entry.name i ≡ note i)
    × ((i : ℕ) → i < 2 → entry.content i ≡ safe i)
unfolding valid_name valid_bytes bounded_length bounded_from
decode-encode_example =
    decode-encode (λ index. 0xFF) blank_entry 1 7 2 note (some safe) (inl refl) (omega arith)
      (omega arith) note-byte refl (omega arith) (λ e. absurd (omega arith)) (λ h. refl)

-- The removal of "NOTE", not committed.
abbrev pending_removal : Sector
pending_removal =
    write_u32 (record_fields 2 8 4 0 note (λ index. 0)) 16
      (record_crc (record_fields 2 8 4 0 note (λ index. 0)))

pending_removal_lem :
    encode_internal (some (λ index. 0xFF)) 2 8 (some note) none 0 false ≡ some pending_removal
unfolding encode_internal valid_name valid_bytes bounded_length bounded_from
pending_removal_lem = refl

decode-prepared_example : decode (some pending_removal) (some blank_entry) ≡ none
decode-prepared_example =
    decode-prepared (λ index. 0xFF) pending_removal blank_entry 2 8 0 (some note) none
      pending_removal_lem
