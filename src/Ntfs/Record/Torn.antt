-- ===== src/Ntfs/Record/Torn.antt =====
-- The fixups on any record: they answer, keep its length, and reject a torn write.
use batuta.Base.{ℕ, zero, suc, ◌+◌, ◌-◌, ◌*◌, ◌≤◌, ◌<◌, ◌≡◌, refl, sym, ap, subst, ◌∙◌, arith}
use batuta.Base.{true, not, Option, none, some, List, inl, inr}
use batuta.Base.{length, ltb, ltb→lt, leb, ◌==◌}
use batuta.Ntfs.Bytes.{
  Result, ok, err, panic, stuck, NtfsError, truncated, not_a_file_record, bad_fixup, or_panic,
  slice,
}
use batuta.Ntfs.Bytes.{u16_at, ok_or, reject, unwrap_or}
use batuta.Ntfs.Bytes.Laws.{slice_in}
use batuta.Ntfs.Bytes.Results.{
  bind-eq-ok, ok_or-eq-ok, reject-eq-ok, Answers, value, error, answers_rules, Answers-bind,
  Answers-ok_or, Answers-reject, Answers-reject_if, Answers-cases,
}
use batuta.Ntfs.Record.{
  fix_sector, fix_sectors, Patched, write_u16, UpdateSequence, update_sequence, apply_fixups,
  header_min,
}
use batuta.Ntfs.Record.Writes.{put, length-put, u16_at-put_below, u16_at_inside}
use batuta.Ntfs.Record.Fixups.{tail_of, next_tail, Checked, update_sequence-Checked}

write_u16_ok :
    (buf buf' : List ℕ) (at v : ℕ)
    → write_u16 buf at v ≡ ok buf'
    → (buf' ≡ put buf at v) × (at + 2 ≤ length buf)
unfolding write_u16 put
write_u16_ok buf buf' at v h = ground arith

-- The sectors from `i` on carry the sequence number at their ends.
abbrev pub Intact : ℕ → ℕ → ℕ → ℕ → List ℕ → Type 0
Intact usn sector_size zero i buf = Unit
Intact usn sector_size (suc left) i buf =
    (u16_at buf (tail_of sector_size i) ≡ some usn) × Intact usn sector_size left (i + 1) buf

Intact-put :
    (usn sector left i at v : ℕ) (buf : List ℕ)
    → 4 ≤ sector
    → at + 2 ≤ tail_of sector i
    → Intact usn sector left i (put buf at v)
    → Intact usn sector left i buf
Intact-put usn sector zero i at v buf big h k = tt
Intact-put usn sector (suc left) i at v buf big h (here, k) = (
  sym (u16_at-put_below buf (tail_of sector i) at v h) ∙ here,
  Intact-put usn sector left (i + 1) at v buf big (omega (arith, next_tail sector i big)) k,
)

-- The errors of the fixups.
abbrev pub IsFixupError : List ℕ → NtfsError → Type 0
IsFixupError buf (truncated need have) =
    (need ≡ header_min) × (have ≡ length buf) × (length buf < need)
IsFixupError buf not_a_file_record = Unit
IsFixupError buf (bad_fixup what) = Unit
IsFixupError buf _ = ⊥

abbrev IsBadFixup : NtfsError → Type 0
IsBadFixup (bad_fixup what) = Unit
IsBadFixup _ = ⊥

write_u16-Answers :
    {E : NtfsError → Type 0} (buf : List ℕ) (at v : ℕ)
    → at + 2 ≤ length buf
    → Answers E (write_u16 buf at v)
unfolding write_u16
write_u16-Answers buf at v h = rw (le→leb (at + 2) (length buf) h) (value _)
  where
    le→leb : (a b : ℕ) → a ≤ b → leb a b ≡ true
    le→leb a b h = ground arith

fix_sector-Answers :
    (usa usn sector i : ℕ) (buf : List ℕ) → Answers IsBadFixup (fix_sector usa usn sector i buf)
unfolding fix_sector
fix_sector-Answers usa usn sector i buf =
    let tail = tail_of sector i in
    Answers-bind (ok_or (u16_at buf (usa + 2 + i * 2)) (bad_fixup _)) _ (Answers-ok_or _ _ tt)
      λ saved _.
        Answers-bind (ok_or (u16_at buf tail) (bad_fixup _)) _ (Answers-ok_or _ _ tt)
          λ current read.
            Answers-bind (reject (not (current == usn)) (bad_fixup _)) _ (Answers-reject _ _ tt)
              λ _ _.
                write_u16-Answers buf tail saved (u16_at_inside buf tail (ok_or-eq-ok _ _ read))

fix_sector_ok :
    (usa usn sector i : ℕ) (buf buf' : List ℕ)
    → fix_sector usa usn sector i buf ≡ ok buf'
    → (u16_at buf (tail_of sector i) ≡ some usn) × ((v : ℕ) × (buf' ≡ put buf (tail_of sector i) v))
unfolding fix_sector
fix_sector_ok usa usn sector i buf buf' h =
    let tail = tail_of sector i in
    let (saved, a, h₁) = bind-eq-ok (ok_or (u16_at buf (usa + 2 + i * 2)) (bad_fixup _)) _ h in
    let (current, b, h₂) = bind-eq-ok (ok_or (u16_at buf tail) (bad_fixup _)) _ h₁ in
    let (u, c, h₃) = bind-eq-ok (reject (not (current == usn)) (bad_fixup _)) _ h₂ in
    let same : current ≡ usn = ground (arith, reject-eq-ok _ _ c) in
    (ok_or-eq-ok _ _ b ∙ ap some same, (saved, (write_u16_ok buf buf' tail saved h₃).0))

-- The loop: it answers and keeps the length, and where it succeeds every sector was intact.
record Loop (usn sector left i : ℕ) (buf : List ℕ) (p : Patched) : Type 0 where
  answers : Answers IsBadFixup p.0
  same_length : length p.1 ≡ length buf
  intact : p.0 ≡ ok tt → Intact usn sector left i buf

fix_sectors-Loop :
    (usa usn sector left i : ℕ) (buf : List ℕ)
    → 4 ≤ sector
    → Loop usn sector left i buf (fix_sectors usa usn sector left i buf)
unfolding fix_sectors
fix_sectors-Loop usa usn sector zero i buf big = record {
  answers = value tt;
  same_length = refl;
  intact = λ _. tt;
}
fix_sectors-Loop usa usn sector (suc left) i buf big =
    elim (Answers-cases (fix_sector-Answers usa usn sector i buf)) [
      | inl (buf', e) ↦
          let (read, (v, changed)) = fix_sector_ok usa usn sector i buf buf' e in
          let rest : Loop usn sector left (i + 1) buf'
              (fix_sectors usa usn sector left (i + 1) buf') =
            fix_sectors-Loop usa usn sector left (i + 1) buf' big in
          rw e (record {
            answers = rest.answers;
            same_length =
                rest.same_length ∙ ap length changed ∙ length-put buf (tail_of sector i) v;
            intact = λ done. (
              read,
              Intact-put usn sector left (i + 1) (tail_of sector i) v buf big
                  (next_tail sector i big)
                  (subst (Intact usn sector left (i + 1)) changed (rest.intact done)),
            );
          })
      | inr (x, e, bad) ↦
          rw e (record { answers = error x bad; same_length = refl; intact = λ done. absurd (cc) })
    ]

update_sequence-Answers :
    (buf : List ℕ) (sector : ℕ) → Answers (IsFixupError buf) (update_sequence buf sector)
unfolding update_sequence
update_sequence-Answers buf sector =
    Answers-bind (reject (ltb (length buf) header_min) (truncated header_min (length buf))) _
      (Answers-reject_if _ _ λ short. (refl, refl, ltb→lt _ _ short))
      λ u long.
        Answers-bind (or_panic (slice buf 0 4)) _
          (rw (slice_in buf 0 4 (ground (arith, reject-eq-ok _ _ long))) (value _))
          λ magic _. search answers_rules depth 16

widen : (buf : List ℕ) (r : Result (Unit {0})) → Answers IsBadFixup r → Answers (IsFixupError buf) r
widen buf (ok a) (value _) = value a
widen buf (err (bad_fixup x)) (error _ h) = error (bad_fixup x) tt
widen buf (err _) (error _ h) = elim h [ ]
widen buf panic h = elim h [ ]
widen buf stuck h = elim h [ ]

-- The record names an update sequence array, and every sector that the array has an entry for ends with
-- the array's sequence number: `count` words are the number and an entry for each of `count - 1` sectors.
pub record Whole (buf : List ℕ) (sector : ℕ) : Type 0 where
  pub array : ℕ
  pub count : ℕ
  pub usn : ℕ
  pub array_at : u16_at buf 0x04 ≡ some array
  pub count_at : u16_at buf 0x06 ≡ some count
  pub some_count : 0 < count
  pub number_at : u16_at buf array ≡ some usn
  pub tails : (i : ℕ) → i + 1 < count → u16_at buf ((i + 1) * sector - 2) ≡ some usn

Intact-tail :
    (usn sector left i k : ℕ) (buf : List ℕ)
    → Intact usn sector left i buf
    → k < left
    → u16_at buf (tail_of sector (i + k)) ≡ some usn
Intact-tail usn sector zero i k buf h lt = absurd (omega (arith, lt))
Intact-tail usn sector (suc left) i zero buf (here, h) lt =
    let same : i + 0 ≡ i = omega arith in rw same here
Intact-tail usn sector (suc left) i (suc k) buf (here, h) lt =
    let same : i + suc k ≡ i + 1 + k = omega arith in
    rw same (Intact-tail usn sector left (i + 1) k buf h (omega (arith, lt)))

-- A word that is not 0 was read.
was_read : (o : Option ℕ) → 0 < unwrap_or o 0 → o ≡ some (unwrap_or o 0)
was_read none h = absurd (omega (arith, h))
was_read (some v) h = refl

Checked-Whole :
    (buf : List ℕ) (sector : ℕ) (u : UpdateSequence)
    → Checked buf sector u
    → Intact u.usn sector u.fixup_count 0 buf
    → Whole buf sector
Checked-Whole buf sector u c h = record {
  array = unwrap_or (u16_at buf 0x04) 0;
  count = unwrap_or (u16_at buf 0x06) 0;
  usn = u.usn;
  array_at = was_read (u16_at buf 0x04) (omega (arith, c.offset, c.low));
  count_at = was_read (u16_at buf 0x06) (omega (arith, c.count));
  some_count = omega (arith, c.count);
  number_at = rw (sym c.offset) c.number;
  tails = λ i lt.
      let from_zero : 0 + i ≡ i = omega arith in
      rw from_zero at
        (Intact-tail u.usn sector u.fixup_count 0 i buf h (omega (arith, lt, c.count)));
}

-- On every record and every sector size the fixups answer, without a panic, with success or with
-- one of their own errors, and the buffer keeps its length. They succeed only if the record names an
-- update sequence array and every sector that the array has an entry for carried the array's sequence
-- number at its end, so a write that was torn in one of those sectors is always reported.
pub apply_fixups_detects :
    (buf : List ℕ) (sector : ℕ)
    → Answers (IsFixupError buf) (apply_fixups buf sector).0
      × (length (apply_fixups buf sector).1 ≡ length buf)
      × ((apply_fixups buf sector).0 ≡ ok tt → Whole buf sector)
unfolding apply_fixups
apply_fixups_detects buf sector = elim (Answers-cases (update_sequence-Answers buf sector)) [
  | inl (u, e) ↦
      let c : Checked buf sector u = update_sequence-Checked buf sector u e in
      let big : 4 ≤ sector = c.sector_size in
      let loop : Loop u.usn sector u.fixup_count 0 buf
          (fix_sectors u.usa_offset u.usn sector u.fixup_count 0 buf) =
        fix_sectors-Loop u.usa_offset u.usn sector u.fixup_count 0 buf big in
      rw e (
        widen buf _ loop.answers,
        loop.same_length,
        λ done. Checked-Whole buf sector u c (loop.intact done),
      )
  | inr (x, e, bad) ↦ rw e (error x bad, refl, λ done. absurd (cc))
]
