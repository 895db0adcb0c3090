-- ===== src/Journal/Record/Prepared.antt =====
-- A record that is not committed yet.
use mathlib.Core.Option.{some-injective, none-ne-some}
use efes_os.Base.{
  ℕ, ◌<◌, ◌≤◌, ◌≡◌, refl, subst, true, false, not, ◌&&◌, ◌||◌, Option, none, some, is_some, ◌==◌,
  ltb, arith, if_each,
}
use efes_os.Journal.{Sector, read_u16, read_u32, write_u16, write_u32, record_crc}
use efes_os.Journal.Record.{
  JournalEntry, bounded_length, valid_name, copied, bytes_of, record_fields, encode_internal,
  decode_internal, decode,
}
use efes_os.Journal.Record.RoundTrip.{valid_name-short}

unfoldable pub prepared : ℕ → ℕ → ℕ → ℕ → (ℕ → ℕ) → (ℕ → ℕ) → ℕ → Sector
prepared operation sequence nl cl name content crc =
    write_u32 (record_fields operation sequence nl cl name content) 16 crc

pub prepared-zero :
    (operation sequence nl cl : ℕ) (name content : ℕ → ℕ) (crc i : ℕ)
    → nl ≤ 32
    → cl ≤ 256
    → 508 ≤ i
    → prepared operation sequence nl cl name content crc i ≡ 0
unfolding prepared record_fields copied write_u32 write_u16
prepared-zero operation sequence nl cl name content crc i hn hc h = ground arith

pub commit-zero : (sector : Sector) → ((i : ℕ) → 508 ≤ i → sector i ≡ 0) → read_u32 sector 508 ≡ 0
unfolding read_u32
commit-zero sector zeroes =
    rw
      (
        zeroes 508 (omega arith),
        zeroes 509 (omega arith),
        zeroes 510 (omega arith),
        zeroes 511 (omega arith),
      )
      refl

-- Without its commit marker no sector is decoded.
decode-uncommitted :
    (sector : Sector) (entry : JournalEntry)
    → ((i : ℕ) → 508 ≤ i → sector i ≡ 0)
    → decode (some sector) (some entry) ≡ none
unfolding decode decode_internal
decode-uncommitted sector entry zeroes =
    let e : read_u32 sector 508 ≡ 0 = commit-zero sector zeroes in
    if_each (λ o. o ≡ none)
      (not (read_u32 sector 0 == 0x314A_5346)
        || not (read_u16 sector 4 == 1)
        || (read_u32 sector 8 == 0)
        || not (read_u32 sector 508 == 0xC0DE_17ED))
      none _ (λ refused. refl) (λ accepted. absurd (ground arith))

-- A record that is encoded without its commit marker, the first of the two writes of an append, is
-- never decoded as a record of the log.
pub decode-prepared :
    (sector encoded : Sector) (entry : JournalEntry) (operation sequence cl : ℕ)
    (name content : Option (ℕ → ℕ))
    → encode_internal (some sector) operation sequence name content cl false ≡ some encoded
    → decode (some encoded) (some entry) ≡ none
unfolding encode_internal prepared
decode-prepared sector encoded entry operation sequence cl name content =
    if_each Hidden
      ((sequence == 0)
        || not (operation == 1) && not (operation == 2)
        || ltb 256 cl
        || not (cl == 0) && not (is_some content))
      none _ (λ refused e. absurd (none-ne-some encoded e))
      (λ allowed.
        if_each Hidden (not (valid_name name nl) || (operation == 2) && not (cl == 0)) none
          (some written) (λ refused e. absurd (none-ne-some encoded e))
          (λ right e.
            subst (λ s. decode (some s) (some entry) ≡ none) (some-injective written encoded e)
              (decode-uncommitted written entry (λ i h.
                prepared-zero operation sequence nl cl (bytes_of name) (bytes_of content)
                  (record_crc fields) i (omega (arith, short right)) (ground arith) h))))
  where
    nl : ℕ
    nl = bounded_length name 32

    fields : Sector
    fields = record_fields operation sequence nl cl (bytes_of name) (bytes_of content)

    short : (not (valid_name name nl) || (operation == 2) && not (cl == 0)) ≡ false → nl < 32
    short right =
        let valid : valid_name name nl ≡ true = ground arith in valid_name-short name nl valid

    written : Sector
    written = write_u32 fields 16 (record_crc fields)

    Hidden : Option Sector → Type 0
    Hidden o = o ≡ some encoded → decode (some encoded) (some entry) ≡ none
