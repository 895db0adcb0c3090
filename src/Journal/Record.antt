-- ===== src/Journal/Record.antt =====
-- The form of a record in fs/journal.c: encoding, decoding and the checks of a name.
pub mod RoundTrip
pub mod Prepared
pub mod Encoded
use efes_os.Base.{
  ℕ, zero, suc, ◌+◌, ◌-◌, ◌%◌, Bool, true, false, not, ◌&&◌, ◌||◌, Option, none, some, is_some,
  ◌==◌, ltb, leb, if◌then◌else◌,
}
use efes_os.Journal.{
  Sector, journal_magic, journal_version, journal_commit, header_size, name_max, content_max,
  payload_size, commit_offset, read_u16, read_u32, write_u16, write_u32, record_crc, all_zero,
}

abbrev pub operation_write : ℕ
operation_write = 1

abbrev pub operation_remove : ℕ
operation_remove = 2

-- Of the two arrays the bytes from 0 to 31 and from 0 to 255.
pub record JournalEntry : Type 0 where
  pub operation : ℕ
  pub sequence : ℕ
  pub name_length : ℕ
  pub content_length : ℕ
  pub name : ℕ → ℕ
  pub content : ℕ → ℕ

-- The `n` rounds of the search for the end that are left at `length`.
unfoldable pub bounded_from : (ℕ → ℕ) → ℕ → ℕ → ℕ
bounded_from value length zero = length
bounded_from value length (suc n) =
    if not (value length == 0) then bounded_from value (length + 1) n else length

unfoldable pub bounded_length : Option (ℕ → ℕ) → ℕ → ℕ
bounded_length none limit = limit
bounded_length (some value) limit = bounded_from value 0 limit

-- '!', '/' and '\' are 33, 47 and 92.
unfoldable pub valid_bytes : (ℕ → ℕ) → ℕ → ℕ → Bool
valid_bytes name index zero = true
valid_bytes name index (suc n) =
    if ltb (name index) 33 || (name index == 47) || (name index == 92)
    then false
    else valid_bytes name (index + 1) n

unfoldable pub valid_name : Option (ℕ → ℕ) → ℕ → Bool
valid_name none length = false
valid_name (some name) length =
    if (length == 0) || leb name_max length then false else valid_bytes name 0 length

-- for (index = 0; index < n; index++) sector[first + index] = source[index];
unfoldable pub copied : ℕ → ℕ → (ℕ → ℕ) → Sector → Sector
copied first n source sector i =
    if leb first i && ltb i (first + n) then source (i - first) else sector i

-- A content that may be null is read only where it is not empty.
abbrev pub bytes_of : Option (ℕ → ℕ) → ℕ → ℕ
bytes_of none = λ index. 0
bytes_of (some content) = content

-- The record up to its checksum.
unfoldable pub record_fields : ℕ → ℕ → ℕ → ℕ → (ℕ → ℕ) → (ℕ → ℕ) → Sector
record_fields operation sequence name_length content_length name content =
    let numbers =
      write_u16
        (write_u16
          (write_u32
            (write_u16 (write_u16 (write_u32 (λ index. 0) 0 journal_magic) 4 journal_version) 6
              operation)
            8 sequence)
          12 name_length)
        14 content_length in
    copied (header_size + name_max) content_length content
      (copied header_size name_length (λ index. name index % 0x100) numbers)

unfoldable pub encode_internal :
    Option Sector → ℕ → ℕ → Option (ℕ → ℕ) → Option (ℕ → ℕ) → ℕ → Bool → Option Sector
encode_internal none operation sequence name content content_length committed = none
encode_internal (some sector) operation sequence name content content_length committed =
    let name_length = bounded_length name name_max in
    let fields =
      record_fields operation sequence name_length content_length (bytes_of name)
        (bytes_of content) in
    let sealed = write_u32 fields 16 (record_crc fields) in
    if (sequence == 0)
      || not (operation == operation_write) && not (operation == operation_remove)
      || ltb content_max content_length
      || not (content_length == 0) && not (is_some content)
    then none
    else if not (valid_name name name_length)
        || (operation == operation_remove) && not (content_length == 0)
    then none
    else some (if committed then write_u32 sealed commit_offset journal_commit else sealed)

unfoldable pub encode : Option Sector → ℕ → ℕ → Option (ℕ → ℕ) → Option (ℕ → ℕ) → ℕ → Option Sector
encode sector operation sequence name content content_length =
    encode_internal sector operation sequence name content content_length true

-- The bytes that a record leaves unused are zero.
unfoldable pub padding_is_zero : Sector → ℕ → ℕ → Bool
padding_is_zero sector name_length content_length =
    (sector (header_size + name_length) == 0)
    && all_zero sector (header_size + (name_length + 1)) (name_max - (name_length + 1))
    && all_zero sector (header_size + name_max + content_length) (content_max - content_length)
    && all_zero sector (header_size + payload_size) (commit_offset - (header_size + payload_size))

unfoldable pub decode_internal : Option Sector → Option JournalEntry → Bool → Option JournalEntry
decode_internal none entry require_commit = none
decode_internal (some sector) none require_commit = none
decode_internal (some sector) (some entry) require_commit =
    let operation = read_u16 sector 6 in
    let name_length = read_u16 sector 12 in
    let content_length = read_u16 sector 14 in
    if not (read_u32 sector 0 == journal_magic)
      || not (read_u16 sector 4 == journal_version)
      || (read_u32 sector 8 == 0)
      || not (read_u32 sector commit_offset == (if require_commit then journal_commit else 0))
    then none
    else if not (operation == operation_write) && not (operation == operation_remove)
    then none
    else if not (valid_name (some (λ index. sector (header_size + index))) name_length)
        || ltb content_max content_length
        || (operation == operation_remove) && not (content_length == 0)
        || not (read_u32 sector 16 == record_crc sector)
    then none
    else if not (padding_is_zero sector name_length content_length)
    then none
    else some (record {
      operation = operation;
      sequence = read_u32 sector 8;
      name_length = name_length;
      content_length = content_length;
      name = λ index. sector (header_size + index);
      content = λ index. sector (header_size + name_max + index);
    })

unfoldable pub decode : Option Sector → Option JournalEntry → Option JournalEntry
decode sector entry = decode_internal sector entry true

unfoldable pub decode_prepared : Option Sector → Option JournalEntry → Option JournalEntry
decode_prepared sector entry = decode_internal sector entry false
