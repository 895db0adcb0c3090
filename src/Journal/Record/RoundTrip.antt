-- ===== src/Journal/Record/RoundTrip.antt =====
-- A record that is written can be read.
use efes_os.Base.{
  Bool, ℕ, zero, suc, ◌+◌, ◌-◌, ◌%◌, ◌<◌, ◌≤◌, ◌≡◌, ◌⊎◌, refl, ap, ◌∙◌, true, false, not, ◌&&◌,
  ◌||◌, Option, none, some, is_some, ◌==◌, ltb, leb, if◌then◌else◌, arith, if_each, Bool-cases, inl,
  inr, ==_self, ==_iff,
}
use efes_os.Journal.{
  Sector, read_u16, read_u32, write_u16, write_u32, record_crc, all_zero, crc32_update,
}
use efes_os.Journal.Bytes.{u16_bytes, u32_bytes, crc32_update-cong, all_zero_lem}
use efes_os.Journal.Record.{
  JournalEntry, bounded_length, valid_name, valid_bytes, copied, bytes_of, record_fields,
  encode_internal, encode, padding_is_zero, decode_internal, decode,
}

valid_bytes-cong :
    (s t : ℕ → ℕ) (index n : ℕ)
    → ((i : ℕ) → index ≤ i → i < index + n → s i ≡ t i)
    → valid_bytes s index n ≡ valid_bytes t index n
unfolding valid_bytes
valid_bytes-cong s t index zero same = refl
valid_bytes-cong s t index (suc n) same =
    let e : s index ≡ t index = same index (omega arith) (omega arith) in
    rw e (
      ap (λ b. if ltb (t index) 33 || (t index == 47) || (t index == 92) then false else b)
        (valid_bytes-cong s t (index + 1) n (λ i low high. same i (omega arith) (omega arith))))

byte_lem : (n : ℕ) → n < 0x100 → n % 0x100 ≡ n
byte_lem n h = omega arith

pub valid_name-short : (name : Option (ℕ → ℕ)) (n : ℕ) → valid_name name n ≡ true → n < 32
unfolding valid_name
valid_name-short none n h = ground arith
valid_name-short (some name) n h = ground arith

-- With the marker `marker` at its end: the commit marker, or zero before the commit.
module _ (marker operation sequence nl cl : ℕ) (name content : ℕ → ℕ) where
  unfoldable pub fields : Sector
  fields = record_fields operation sequence nl cl name content

  -- The sector with a checksum.
  unfoldable pub written : ℕ → Sector
  written crc = write_u32 (write_u32 fields 16 crc) 508 marker

  written-fields :
      (crc : ℕ)
      → operation < 0x1_0000
      → sequence < 0x1_0000_0000
      → nl < 0x1_0000
      → cl < 0x1_0000
      → crc < 0x1_0000_0000
      → (read_u32 (written crc) 0 ≡ 0x314A_5346)
        × (read_u16 (written crc) 4 ≡ 1)
        × (read_u16 (written crc) 6 ≡ operation)
        × (read_u32 (written crc) 8 ≡ sequence)
        × (read_u16 (written crc) 12 ≡ nl)
        × (read_u16 (written crc) 14 ≡ cl)
        × (read_u32 (written crc) 16 ≡ crc)
  unfolding written fields record_fields copied write_u32 write_u16 read_u16 read_u32
  written-fields crc ho hs hn hc hk = (
    refl,
    refl,
    u16_bytes operation ho,
    u32_bytes sequence hs,
    u16_bytes nl hn,
    u16_bytes cl hc,
    u32_bytes crc hk,
  )

  written-commit : (crc : ℕ) → marker < 0x1_0000_0000 → read_u32 (written crc) 508 ≡ marker
  unfolding written write_u32 write_u16 read_u32
  written-commit crc hm = u32_bytes marker hm

  -- The checksum is not among the bytes it covers.
  written-same : (crc i : ℕ) → i < 16 ⊎ (20 ≤ i) × (i < 308) → written crc i ≡ fields i
  unfolding written write_u32 write_u16
  written-same crc i (inl h) = ground arith
  written-same crc i (inr (h, k)) = ground arith

  written-crc : (crc : ℕ) → record_crc (written crc) ≡ record_crc fields
  unfolding record_crc
  written-crc crc =
      ap (λ c. 0xFFFF_FFFF - c)
        (crc32_update-cong (crc32_update 0xFFFF_FFFF (written crc) 0 16) (written crc) fields 20 288
            (λ i low high. written-same crc i (inr (low, omega arith)))
          ∙ ap (λ c. crc32_update c fields 20 288)
              (crc32_update-cong 0xFFFF_FFFF (written crc) fields 0 16
                (λ i low high. written-same crc i (inl (omega arith)))))

  written-name : (crc i : ℕ) → nl ≤ 32 → cl ≤ 256 → i < nl → written crc (20 + i) ≡ name i % 0x100
  unfolding written fields record_fields copied write_u32 write_u16
  written-name crc i hn hc h = let e : 20 + i - 20 ≡ i = omega arith in rw e (ground arith)

  written-content : (crc i : ℕ) → nl ≤ 32 → cl ≤ 256 → i < cl → written crc (52 + i) ≡ content i
  unfolding written fields record_fields copied write_u32 write_u16
  written-content crc i hn hc h = let e : 52 + i - 52 ≡ i = omega arith in rw e (ground arith)

  Unused : ℕ → Type 0
  Unused i = ((20 + nl ≤ i) × (i < 52)) ⊎ ((52 + cl ≤ i) × (i < 508))

  unmarked-zero : (crc i : ℕ) → nl ≤ 32 → cl ≤ 256 → Unused i → write_u32 fields 16 crc i ≡ 0
  unfolding Unused fields record_fields copied write_u32 write_u16
  unmarked-zero crc i hn hc (inl (low, high)) = ground arith
  unmarked-zero crc i hn hc (inr (low, high)) = ground arith

  written-unmarked : (crc i : ℕ) → i < 508 → written crc i ≡ write_u32 fields 16 crc i
  unfolding written write_u32 write_u16
  written-unmarked crc i h = ground arith

  Unused-bound : (i : ℕ) → Unused i → i < 508
  unfolding Unused
  Unused-bound i (inl (low, high)) = omega arith
  Unused-bound i (inr (low, high)) = high

  written-zero : (crc i : ℕ) → nl ≤ 32 → cl ≤ 256 → Unused i → written crc i ≡ 0
  written-zero crc i hn hc h =
      written-unmarked crc i (Unused-bound i h) ∙ unmarked-zero crc i hn hc h

  padding_lem : (crc : ℕ) → nl < 32 → cl ≤ 256 → padding_is_zero (written crc) nl cl ≡ true
  unfolding padding_is_zero Unused
  padding_lem crc hn hc =
      let a : written crc (20 + nl) ≡ 0 =
        written-zero crc (20 + nl) (omega arith) hc (inl (omega arith, omega arith)) in
      let b : all_zero (written crc) (20 + (nl + 1)) (32 - (nl + 1)) ≡ true =
        all_zero_lem (written crc) (20 + (nl + 1)) (32 - (nl + 1))
          (λ i low high. written-zero crc i (omega arith) hc (inl (omega arith, omega arith))) in
      let c : all_zero (written crc) (52 + cl) (256 - cl) ≡ true =
        all_zero_lem (written crc) (52 + cl) (256 - cl)
          (λ i low high. written-zero crc i (omega arith) hc (inr (omega arith, omega arith))) in
      let d : all_zero (written crc) 308 200 ≡ true =
        all_zero_lem (written crc) 308 200
          (λ i low high. written-zero crc i (omega arith) hc (inr (omega arith, omega arith))) in
      rw (a, b, c, d) refl

  record_crc-range : (s : Sector) → record_crc s < 0x1_0000_0000
  unfolding record_crc
  record_crc-range s = omega arith

  written-valid :
      (crc : ℕ)
      → ((i : ℕ) → name i < 0x100)
      → nl < 32
      → cl ≤ 256
      → valid_name (some name) nl ≡ true
      → valid_name (some (λ index. written crc (20 + index))) nl ≡ true
  unfolding valid_name
  written-valid crc byte hn hc valid =
      ap (λ b. if (nl == 0) || leb 32 nl then false else b)
        (valid_bytes-cong (λ index. written crc (20 + index)) name 0 nl
          (λ i low high.
            written-name crc i (omega arith) hc (omega arith) ∙ byte_lem (name i) (byte i)))
      ∙ valid

  unfoldable pub sealed : Sector
  sealed = written (record_crc fields)

  pub decode-written :
      (entry : JournalEntry) (require_commit : Bool)
      → marker ≡ (if require_commit then 0xC0DE_17ED else 0)
      → (operation ≡ 1) ⊎ (operation ≡ 2)
      → 0 < sequence
      → sequence < 0x1_0000_0000
      → ((i : ℕ) → name i < 0x100)
      → valid_name (some name) nl ≡ true
      → nl < 32
      → cl ≤ 256
      → (operation ≡ 2 → cl ≡ 0)
      → decode_internal (some sealed) (some entry) require_commit
        ≡ some (record {
          operation = operation;
          sequence = sequence;
          name_length = nl;
          content_length = cl;
          name = λ index. sealed (20 + index);
          content = λ index. sealed (52 + index);
        })
  unfolding decode_internal sealed
  decode-written entry require_commit is_marker ho hs hs' byte valid hn hc empty =
      let (magic, version, op, seq, names, contents, stored) =
        written-fields (record_crc fields) (ground arith) hs' (omega arith) (omega arith)
          (record_crc-range fields) in
      let hm : marker < 0x1_0000_0000 = ground arith in
      let commit = written-commit (record_crc fields) hm in
      let same : (record_crc fields == record_crc fields) ≡ true = ==_self (record_crc fields) in
      let good_name = written-valid (record_crc fields) byte hn hc valid in
      let padded = padding_lem (record_crc fields) hn hc in
      rw
        (
          magic,
          version,
          op,
          seq,
          names,
          contents,
          stored,
          commit,
          written-crc (record_crc fields),
          same,
          good_name,
          padded,
        )
        (if_each Good
          ((sequence == 0) || not (marker == (if require_commit then 0xC0DE_17ED else 0))) none _
          (λ wrong. absurd (ground arith))
          (λ right.
            if_each Good (not (operation == 1) && not (operation == 2)) none _
              (λ wrong. absurd (ground arith))
              (λ right2.
                if_each Good (ltb 256 cl || (operation == 2) && not (cl == 0) || false) none _
                  (λ wrong. absurd (elim (Bool-cases (operation == 2)) [
                    | inl removed ↦
                        let z : cl ≡ 0 = empty ((==_iff operation 2).0 removed) in ground arith
                    | inr kept ↦ ground arith
                  ]))
                  (λ right3. refl))))
    where
      Good : Option JournalEntry → Type 0
      Good o =
          o
          ≡ some (record {
            operation = operation;
            sequence = sequence;
            name_length = nl;
            content_length = cl;
            name = λ index. sealed (20 + index);
            content = λ index. sealed (52 + index);
          })

-- A record that is encoded with a name of 1 to 31 permitted bytes, at most 256 bytes of content (none for
-- a removal) and a sequence number other than 0 is encoded, whatever the buffer held, and decodes to
-- the same operation, sequence number, lengths, name and content.
pub decode-encode :
    (sector : Sector) (before : JournalEntry) (operation sequence cl : ℕ) (name : ℕ → ℕ)
    (content : Option (ℕ → ℕ))
    → (operation ≡ 1) ⊎ (operation ≡ 2)
    → 0 < sequence
    → sequence < 0x1_0000_0000
    → ((i : ℕ) → name i < 0x100)
    → valid_name (some name) (bounded_length (some name) 32) ≡ true
    → cl ≤ 256
    → (operation ≡ 2 → cl ≡ 0)
    → (0 < cl → is_some content ≡ true)
    → (encoded : Sector) × (entry : JournalEntry) × (encode
          (some sector)
          operation
          sequence
          (some name)
          content
          cl
        ≡ some encoded)
      × (decode (some encoded) (some before) ≡ some entry)
      × (entry.operation ≡ operation)
      × (entry.sequence ≡ sequence)
      × (entry.name_length ≡ bounded_length (some name) 32)
      × (entry.content_length ≡ cl)
      × ((i : ℕ) → i < bounded_length (some name) 32 → entry.name i ≡ name i)
      × ((i : ℕ) → i < cl → entry.content i ≡ bytes_of content i)
unfolding encode decode encode_internal sealed written fields
decode-encode sector before operation sequence cl name content ho hs hs' byte valid hc empty given =
    (
      sealed 0xC0DE_17ED operation sequence nl cl name (bytes_of content),
      record {
        operation = operation;
        sequence = sequence;
        name_length = nl;
        content_length = cl;
        name = λ index.
            sealed 0xC0DE_17ED operation sequence nl cl name (bytes_of content) (20 + index);
        content = λ index.
            sealed 0xC0DE_17ED operation sequence nl cl name (bytes_of content) (52 + index);
      },
      if_each Good
          ((sequence == 0)
            || not (operation == 1) && not (operation == 2)
            || ltb 256 cl
            || not (cl == 0) && not (is_some content))
          none _
          (λ wrong. absurd (elim (Bool-cases (cl == 0)) [
            | inl none_given ↦ ground arith
            | inr some_given ↦ let g : is_some content ≡ true = given (ground arith) in ground arith
          ]))
          (λ right.
            if_each Good
              (not (valid_name (some name) (bounded_length (some name) 32))
                || (operation == 2) && not (cl == 0))
              none _
              (λ wrong. absurd (elim (Bool-cases (operation == 2)) [
                | inl removed ↦
                    let z : cl ≡ 0 = empty ((==_iff operation 2).0 removed) in ground arith
                | inr kept ↦ ground arith
              ]))
              (λ right2. refl)),
      decode-written 0xC0DE_17ED operation sequence nl cl name (bytes_of content) before true refl
          ho hs hs' byte valid short hc empty,
      refl,
      refl,
      refl,
      refl,
      λ i h.
          written-name 0xC0DE_17ED operation sequence nl cl name (bytes_of content) crc i
            (omega (arith, short)) hc h
          ∙ byte_lem (name i) (byte i),
      λ i h.
          written-content 0xC0DE_17ED operation sequence nl cl name (bytes_of content) crc i
            (omega (arith, short)) hc h,
    )
  where
    nl : ℕ
    nl = bounded_length (some name) 32

    crc : ℕ
    crc = record_crc (record_fields operation sequence nl cl name (bytes_of content))

    Good : Option Sector → Type 0
    Good o = o ≡ some (sealed 0xC0DE_17ED operation sequence nl cl name (bytes_of content))

    short : nl < 32
    short = valid_name-short (some name) nl valid
