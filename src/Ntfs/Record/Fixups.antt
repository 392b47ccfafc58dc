-- ===== src/Ntfs/Record/Fixups.antt =====
-- The fixups undo what NTFS does to a record when it writes it, and detect a torn write.
use batuta.Base.{ℕ, zero, suc, ◌+◌, ◌-◌, ◌*◌, ◌^◌, ◌≤◌, ◌<◌, ◌≡◌, refl, sym, ap, subst, ◌∙◌, arith}
use batuta.Base.{not, ◌||◌, some, List}
use batuta.Base.{length, All, ltb, ◌==◌}
use batuta.Ntfs.Bytes.{
  ok, bad_fixup, truncated, not_a_file_record, or_panic, IsByte, slice, u16_at, ok_or, reject,
  unwrap_or,
}
use batuta.Ntfs.Bytes.Results.{bind-eq-ok, ok_or-eq-ok, reject-eq-ok, ok_injective}
use batuta.Ntfs.Boot.{bytes_eq}
use batuta.Ntfs.Record.{header_min, file_magic}
use batuta.Ntfs.Record.{
  fix_sector, fix_sectors, after, write_u16, UpdateSequence, update_sequence, apply_fixups,
}
use batuta.Ntfs.Record.Writes.{put, put-put, put_comm, put_own, length-put, slice-put_above}
use batuta.Ntfs.Record.Writes.{u16_at-put_self, u16_at-put_above, u16_at_inside, u16_at-lt}

-- The last two bytes of sector `i`.
abbrev pub tail_of : ℕ → ℕ → ℕ
tail_of sector_size i = (i + 1) * sector_size - 2

-- What NTFS writes: the sequence number over the tails of sectors `i` to `i + left`.
unfoldable pub stamp : ℕ → ℕ → ℕ → ℕ → List ℕ → List ℕ
stamp usn sector_size zero i buf = buf
stamp usn sector_size (suc left) i buf =
    put (stamp usn sector_size left (i + 1) buf) (tail_of sector_size i) usn

-- The array holds the tails' own bytes.
abbrev pub Stashed : ℕ → ℕ → ℕ → ℕ → List ℕ → Type 0
Stashed usa_offset sector_size zero i buf = Unit
Stashed usa_offset sector_size (suc left) i buf =
    ((v : ℕ) × (u16_at buf (usa_offset + 2 + i * 2) ≡ some v)
      × (u16_at buf (tail_of sector_size i) ≡ some v))
    × Stashed usa_offset sector_size left (i + 1) buf

module _ (usn sector : ℕ) where
  length-stamp : (left i : ℕ) (buf : List ℕ) → length (stamp usn sector left i buf) ≡ length buf
  unfolding stamp
  length-stamp zero i buf = refl
  length-stamp (suc left) i buf =
      length-put (stamp usn sector left (i + 1) buf) _ usn ∙ length-stamp left (i + 1) buf

  slice-stamp :
      (left i off n : ℕ) (buf : List ℕ)
      → off + n ≤ tail_of sector i
      → slice (stamp usn sector left i buf) off n ≡ slice buf off n
  unfolding stamp
  slice-stamp zero i off n buf h = refl
  slice-stamp (suc left) i off n buf h =
      slice-put_above (stamp usn sector left (i + 1) buf) off n (tail_of sector i) usn h
      ∙ slice-stamp left (i + 1) off n buf (omega arith)

  u16_at-stamp :
      (left i off : ℕ) (buf : List ℕ)
      → off + 2 ≤ tail_of sector i
      → u16_at (stamp usn sector left i buf) off ≡ u16_at buf off
  unfolding u16_at
  u16_at-stamp left i off buf h = rw (slice-stamp left i off 2 buf h)

  stamp-put :
      (left i at v : ℕ) (buf : List ℕ)
      → at + 2 ≤ tail_of sector i
      → stamp usn sector left i (put buf at v) ≡ put (stamp usn sector left i buf) at v
  unfolding stamp
  stamp-put zero i at v buf h = refl
  stamp-put (suc left) i at v buf h =
      ap (λ (b : List ℕ). put b (tail_of sector i) usn)
        (stamp-put left (i + 1) at v buf (omega arith))
      ∙ put_comm (stamp usn sector left (i + 1) buf) at (tail_of sector i) v usn h

fix_sector_lem :
    (usa usn sector i v : ℕ) (buf : List ℕ)
    → u16_at buf (usa + 2 + i * 2) ≡ some v
    → u16_at buf (tail_of sector i) ≡ some usn
    → fix_sector usa usn sector i buf ≡ ok (put buf (tail_of sector i) v)
unfolding fix_sector write_u16 put
fix_sector_lem usa usn sector i v buf saved current =
    rw (saved, current) (ground (arith, u16_at_inside buf (tail_of sector i) current))

pub next_tail : (sector i : ℕ) → 4 ≤ sector → tail_of sector i + 2 ≤ tail_of sector (i + 1)
next_tail sector i big = grind arith

first_tail : (sector i : ℕ) → 4 ≤ sector → sector - 2 ≤ tail_of sector i
first_tail sector i big = grind arith

module _ (usa usn sector : ℕ) (big : 4 ≤ sector) (usn_fits : usn < 2 ^ 16) where
  fix_sectors-stamp :
      (left i : ℕ) (clean : List ℕ)
      → All IsByte clean
      → Stashed usa sector left i clean
      → usa + 2 + (i + left) * 2 ≤ sector - 2
      → fix_sectors usa usn sector left i (stamp usn sector left i clean) ≡ (ok tt, clean)
  unfolding fix_sectors stamp
  fix_sectors-stamp zero i clean bytes kept below = refl
  fix_sectors-stamp (suc left) i clean bytes ((v, saved, own), kept) below =
      let rest : List ℕ = stamp usn sector left (i + 1) clean in
      let t : ℕ = tail_of sector i in
      let low : usa + 2 + i * 2 + 2 ≤ t = omega (arith, first_tail sector i big) in
      let fits : t + 2 ≤ length rest =
        omega (arith, length-stamp usn sector left (i + 1) clean, u16_at_inside clean t own) in
      let fixed : fix_sector usa usn sector i (put rest t usn) ≡ ok (put (put rest t usn) t v) =
        fix_sector_lem usa usn sector i v (put rest t usn)
          (u16_at-put_above rest (usa + 2 + i * 2) t usn low
            ∙ u16_at-stamp usn sector left (i + 1) (usa + 2 + i * 2) clean
                (omega (arith, low, next_tail sector i big))
            ∙ saved)
          (u16_at-put_self rest t usn fits usn_fits) in
      let restored : put (put rest t usn) t v ≡ rest =
        put-put rest t usn v
        ∙ sym (stamp-put usn sector left (i + 1) t v clean (next_tail sector i big))
        ∙ ap (stamp usn sector left (i + 1)) (put_own clean t v bytes own) in
      ap (λ r. after r (put rest t usn) (fix_sectors usa usn sector left (i + 1)))
        (fixed ∙ ap ok restored)
      ∙ fix_sectors-stamp left (i + 1) clean bytes kept (omega arith)

-- What the checks before the loop establish.
pub record Checked (buf : List ℕ) (sector : ℕ) (u : UpdateSequence) : Type 0 where
  pub offset : u.usa_offset ≡ unwrap_or (u16_at buf 0x04) 0
  pub count : unwrap_or (u16_at buf 0x06) 0 ≡ u.fixup_count + 1
  pub number : u16_at buf u.usa_offset ≡ some u.usn
  pub sector_size : 4 ≤ sector
  pub covered : u.fixup_count * sector ≤ length buf
  pub low : 0x2A ≤ u.usa_offset
  pub array_inside : u.usa_offset + 2 + u.fixup_count * 2 ≤ length buf

pub update_sequence-Checked :
    (buf : List ℕ) (sector : ℕ) (u : UpdateSequence)
    → update_sequence buf sector ≡ ok u
    → Checked buf sector u
unfolding update_sequence
update_sequence-Checked buf sector u h =
    let off = unwrap_or (u16_at buf 0x04) 0 in
    let count = unwrap_or (u16_at buf 0x06) 0 in
    let (u₁, long, h₁) =
      bind-eq-ok (reject (ltb (length buf) header_min) (truncated header_min (length buf))) _ h in
    let (magic, sliced, h₂) = bind-eq-ok (or_panic (slice buf 0 4)) _ h₁ in
    let (u₂, same, h₃) =
      bind-eq-ok (reject (not (bytes_eq magic file_magic)) not_a_file_record) _ h₂ in
    let (u₃, some_count, h₄) = bind-eq-ok (reject (count == 0) (bad_fixup _)) _ h₃ in
    let (u₄, big, h₅) = bind-eq-ok (reject (ltb sector 4) (bad_fixup _)) _ h₄ in
    let (u₅, covered, h₆) =
      bind-eq-ok (reject (ltb (length buf) ((count - 1) * sector)) (bad_fixup _)) _ h₅ in
    let (u₆, inside, h₇) =
      bind-eq-ok (reject (ltb off 0x2A || ltb (length buf) (off + count * 2)) (bad_fixup _)) _ h₆ in
    let (usn, read, h₈) = bind-eq-ok (ok_or (u16_at buf off) (bad_fixup _)) _ h₇ in
    subst (Checked buf sector) (ok_injective _ u h₈) (record {
      offset = refl;
      count = ground (arith, reject-eq-ok _ _ some_count);
      number = ok_or-eq-ok _ _ read;
      sector_size = ground (arith, reject-eq-ok _ _ big);
      covered = ground (arith, reject-eq-ok _ _ covered);
      low = ground (arith, reject-eq-ok _ _ inside);
      array_inside = ground (arith, reject-eq-ok _ _ inside, reject-eq-ok _ _ some_count);
    })

-- The checks before the loop read nothing that stamping changes.
update_sequence-stamp :
    (usn sector left : ℕ) (buf : List ℕ) (u : UpdateSequence)
    → update_sequence buf sector ≡ ok u
    → u.usa_offset + 2 ≤ sector - 2
    → update_sequence (stamp usn sector left 0 buf) sector ≡ ok u
unfolding update_sequence
update_sequence-stamp usn sector left buf u h low =
    let c : Checked buf sector u = update_sequence-Checked buf sector u h in
    let tail : sector - 2 ≤ tail_of sector 0 = omega arith in
    simp
      (
        length-stamp usn sector left 0 buf,
        slice-stamp usn sector left 0 0 4 buf (omega (arith, c.low)),
        u16_at-stamp usn sector left 0 4 buf (omega (arith, c.low)),
        u16_at-stamp usn sector left 0 6 buf (omega (arith, c.low)),
        u16_at-stamp usn sector left 0 (unwrap_or (u16_at buf 4) 0) buf (omega (arith, c.offset)),
      )
      h

-- If the update sequence array of a record holds the tails of its sectors and lies before the
-- first of them, then writing the sequence number over the tails, as NTFS does, and applying the
-- fixups gives the record back.
pub apply_fixups-stamp :
    (clean : List ℕ) (sector : ℕ) (u : UpdateSequence)
    → All IsByte clean
    → update_sequence clean sector ≡ ok u
    → Stashed u.usa_offset sector u.fixup_count 0 clean
    → u.usa_offset + 2 + u.fixup_count * 2 ≤ sector - 2
    → apply_fixups (stamp u.usn sector u.fixup_count 0 clean) sector ≡ (ok tt, clean)
unfolding apply_fixups
apply_fixups-stamp clean sector u bytes h kept below =
    let c : Checked clean sector u = update_sequence-Checked clean sector u h in
    rw (update_sequence-stamp u.usn sector u.fixup_count clean u h (omega arith)) (
      fix_sectors-stamp u.usa_offset u.usn sector c.sector_size
        (u16_at-lt clean u.usa_offset u.usn bytes c.number) u.fixup_count 0 clean bytes kept
        (omega arith))
