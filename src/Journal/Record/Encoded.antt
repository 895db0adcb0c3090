-- ===== src/Journal/Record/Encoded.antt =====
-- What is read back of an encoded record, before its commit marker and with it.
use mathlib.Core.Option.{some-injective, none-ne-some}
use mathlib.Core.Path.{fun_ext}
use efes_os.Base.{
  ℕ, suc, ◌<◌, ◌≤◌, ◌≡◌, ◌≢◌, refl, sym, ap, subst, ◌∙◌, true, false, not, ◌&&◌, ◌||◌, Option, none,
  some, is_some, ◌==◌, ◌⊎◌, inl, inr, ltb, arith, if_each, Bool-cases,
}
use efes_os.Journal.{Sector, read_u32, write_u16, write_u32, record_crc, all_zero, sector_is_empty}
use efes_os.Journal.Record.{
  JournalEntry, bounded_length, valid_name, copied, bytes_of, record_fields, encode_internal,
  decode_internal, decode, decode_prepared,
}
use efes_os.Journal.Record.RoundTrip.{valid_name-short, fields, written, sealed, decode-written}
use efes_os.Journal.Record.Prepared.{prepared, prepared-zero, commit-zero, decode-prepared}

all_zero-head :
    (sector : Sector) (index n : ℕ) → sector index ≢ 0 → all_zero sector index (suc n) ≡ false
unfolding all_zero
all_zero-head sector index n h = ground arith

-- What an append needs of an encoded sector.
pub record IsEncoded (sector : Sector) (entry : JournalEntry) (sequence : ℕ) : Type 0 where
  pub waiting : JournalEntry
  pub committed : JournalEntry
  pub hidden : decode (some sector) (some entry) ≡ none
  pub uncommitted : read_u32 sector 508 ≡ 0
  pub is_prepared : decode_prepared (some sector) (some entry) ≡ some waiting
  pub waiting_sequence : waiting.sequence ≡ sequence
  pub is_record : decode (some (write_u32 sector 508 0xC0DE_17ED)) (some entry) ≡ some committed
  pub committed_sequence : committed.sequence ≡ sequence
  pub occupied : sector_is_empty sector ≡ false
  pub still_occupied : sector_is_empty (write_u32 sector 508 0xC0DE_17ED) ≡ false

-- Four zero bytes written over zero bytes.
write_u32-zero :
    (sector : Sector)
    → ((i : ℕ) → 508 ≤ i → sector i ≡ 0)
    → (i : ℕ) → sector i ≡ write_u32 sector 508 0 i
unfolding write_u32 write_u16
write_u32-zero sector zeroes i = ground (arith, zeroes i)

module _ (operation sequence nl cl : ℕ) (name content : ℕ → ℕ) where
  seal : Sector
  seal =
      write_u32 (record_fields operation sequence nl cl name content) 16
        (record_crc (record_fields operation sequence nl cl name content))

  -- Before the commit its marker is zero.
  seal-unmarked : nl ≤ 32 → cl ≤ 256 → seal ≡ sealed 0 operation sequence nl cl name content
  unfolding seal sealed written fields prepared
  seal-unmarked hn hc = fun_ext λ i.
      write_u32-zero seal
        (λ k h.
          prepared-zero operation sequence nl cl name content
            (record_crc (record_fields operation sequence nl cl name content)) k hn hc h)
        i

  first_byte : seal 0 ≢ 0
  unfolding seal record_fields copied write_u32 write_u16
  first_byte e = absurd (omega arith)

  marked_first_byte : write_u32 seal 508 0xC0DE_17ED 0 ≢ 0
  unfolding write_u32 write_u16
  marked_first_byte = first_byte

  seal-IsEncoded :
      (entry : JournalEntry)
      → (operation ≡ 1) ⊎ (operation ≡ 2)
      → 0 < sequence
      → sequence < 0x1_0000_0000
      → ((i : ℕ) → name i < 0x100)
      → valid_name (some name) nl ≡ true
      → nl < 32
      → cl ≤ 256
      → (operation ≡ 2 → cl ≡ 0)
      → decode (some seal) (some entry) ≡ none
      → IsEncoded seal entry sequence
  unfolding decode decode_prepared sector_is_empty seal sealed written fields prepared
  seal-IsEncoded entry ho hs hs' byte valid hn hc empty hidden = record {
    waiting = _;
    committed = _;
    hidden = hidden;
    uncommitted = commit-zero seal (λ k h.
        prepared-zero operation sequence nl cl name content
          (record_crc (record_fields operation sequence nl cl name content)) k (omega arith) hc h);
    is_prepared =
        ap (λ s. decode_internal (some s) (some entry) false) (seal-unmarked (omega arith) hc)
        ∙ decode-written 0 operation sequence nl cl name content entry false refl ho hs hs' byte
            valid hn hc empty;
    waiting_sequence = refl;
    is_record =
        decode-written 0xC0DE_17ED operation sequence nl cl name content entry true refl ho hs hs'
          byte valid hn hc empty;
    committed_sequence = refl;
    occupied = all_zero-head seal 0 511 first_byte;
    still_occupied = all_zero-head (write_u32 seal 508 0xC0DE_17ED) 0 511 marked_first_byte;
  }

nameless :
    (before encoded : Sector) (operation sequence cl : ℕ) (content : Option (ℕ → ℕ))
    → encode_internal (some before) operation sequence none content cl false ≢ some encoded
unfolding encode_internal valid_name
nameless before encoded operation sequence cl content =
    if_each (λ (o : Option Sector). o ≢ some encoded)
      ((sequence == 0)
        || not (operation == 1) && not (operation == 2)
        || ltb 256 cl
        || not (cl == 0) && not (is_some content))
      none none (λ refused. none-ne-some encoded) (λ allowed. none-ne-some encoded)

pub encode_internal-IsEncoded :
    (before encoded : Sector) (entry : JournalEntry) (operation sequence cl : ℕ)
    (name content : Option (ℕ → ℕ))
    → sequence < 0x1_0000_0000
    → ((i : ℕ) → bytes_of name i < 0x100)
    → encode_internal (some before) operation sequence name content cl false ≡ some encoded
    → IsEncoded encoded entry sequence
unfolding encode_internal seal
encode_internal-IsEncoded before encoded entry operation sequence cl none content hs byte e =
    absurd (nameless before encoded operation sequence cl content e)
encode_internal-IsEncoded before encoded entry operation sequence cl (some name) content hs byte e =
    if_each Result
      ((sequence == 0)
        || not (operation == 1) && not (operation == 2)
        || ltb 256 cl
        || not (cl == 0) && not (is_some content))
      none _ (λ refused h. absurd (none-ne-some encoded h))
      (λ allowed.
        if_each Result (not (valid_name (some name) nl) || (operation == 2) && not (cl == 0)) none
          (some sealed_record) (λ refused h. absurd (none-ne-some encoded h))
          (λ right h.
            let valid : valid_name (some name) nl ≡ true = ground arith in
            subst (λ s. IsEncoded s entry sequence) (some-injective sealed_record encoded h)
              (seal-IsEncoded operation sequence nl cl name (bytes_of content) entry
                (operation_lem operation (ground arith)) (ground arith) hs byte valid
                (valid_name-short (some name) nl valid) (ground arith) (λ two. ground arith)
                (decode-prepared before sealed_record entry operation sequence cl (some name)
                  content (e ∙ sym h)))))
      e
  where
    nl : ℕ
    nl = bounded_length (some name) 32

    sealed_record : Sector
    sealed_record = seal operation sequence nl cl name (bytes_of content)

    Result : Option Sector → Type 0
    Result o = o ≡ some encoded → IsEncoded encoded entry sequence

    operation_lem : (o : ℕ) → (not (o == 1) && not (o == 2)) ≡ false → (o ≡ 1) ⊎ (o ≡ 2)
    operation_lem o h = elim (Bool-cases (o == 1)) [
      | inl one ↦ inl (ground arith)
      | inr other ↦ inr (ground arith)
    ]
