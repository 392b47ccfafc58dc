-- ===== src/Ntfs/Record/Tests.antt =====
-- A record of two sectors of 64 bytes, stamped and mended, and the theorems at it.
use batuta.Base.{ℕ, ◌≡◌, refl, arith, List, [], ◌∷◌, ◌++◌, replicate, length}
use batuta.Ntfs.Bytes.{ok, err, bad_fixup, slice, from_le_bytes, u16_at}
use batuta.Ntfs.Bytes.Results.{Answers}
use batuta.Ntfs.Boot.{bytes_eq}
use batuta.Ntfs.Record.{
  UpdateSequence, update_sequence, apply_fixups, fix_sectors, fix_sector, write_u16,
}
use batuta.Ntfs.Record.Fixups.{stamp, apply_fixups-stamp}
use batuta.Ntfs.Record.Torn.{IsFixupError, Whole, apply_fixups_detects}

-- The array stands at 0x2A: the sequence number 0xBEEF and the tails 0x1111 and 0x2222.
abbrev clean : List ℕ
clean =
    b'F'
    ∷ b'I'
    ∷ b'L'
    ∷ b'E'
    ∷ 0x2A
    ∷ 0x00
    ∷ 0x03
    ∷ 0x00
    ∷ (replicate 34 0
        ++ (0xEF
            ∷ 0xBE
            ∷ 0x11
            ∷ 0x11
            ∷ 0x22
            ∷ 0x22
            ∷ (replicate 14 7 ++ (0x11 ∷ 0x11 ∷ (replicate 62 9 ++ (0x22 ∷ 0x22 ∷ []))))))

abbrev sequence_of : UpdateSequence
sequence_of = record { usa_offset = 0x2A; usn = 0xBEEF; fixup_count = 2 }

clean_checks : update_sequence clean 64 ≡ ok sequence_of
unfolding update_sequence slice from_le_bytes u16_at bytes_eq
clean_checks = refl

-- Without the stamp the tails do not carry the sequence number.
torn : (apply_fixups clean 64).0 ≡ err (bad_fixup "sector sequence number mismatch")
unfolding apply_fixups update_sequence fix_sectors fix_sector write_u16 slice from_le_bytes u16_at
    bytes_eq
torn = refl

apply_fixups-stamp_example : apply_fixups (stamp 0xBEEF 64 2 0 clean) 64 ≡ (ok tt, clean)
unfolding u16_at slice from_le_bytes
apply_fixups-stamp_example =
    apply_fixups-stamp clean 64 sequence_of (omega arith) clean_checks
      ((0x1111, refl, refl), ((0x2222, refl, refl), tt)) (omega arith)

-- The record as NTFS writes it.
abbrev written : List ℕ
written = stamp 0xBEEF 64 2 0 clean

apply_fixups_detects_example :
    Answers (IsFixupError written) (apply_fixups written 64).0
    × (length (apply_fixups written 64).1 ≡ length written)
    × ((apply_fixups written 64).0 ≡ ok tt → Whole written 64)
apply_fixups_detects_example = apply_fixups_detects written 64
