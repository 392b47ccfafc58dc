-- ===== src/Ntfs/RunList/Total.antt =====
-- Decoding ends on any bytes, and every error names an offset of the input.
use batuta.Base.{ℕ, zero, suc, ◌+◌, ◌≤◌, ◌<◌, ◌≡◌, refl, arith}
use batuta.Base.{Option, none, some, List, [], ◌∷◌, ◌++◌, ◌⊎◌, inl, inr}
use batuta.Base.{length as length_of, get_elem?, lt_of_get}
use batuta.Base.Int.{ℤ}
use batuta.Ntfs.Bytes.{Result, ok, err, NtfsError, bad_run_list}
use batuta.Ntfs.Bytes.Results.{Answers, value, answers_rules, Answers-bind, Answers-cases}
use batuta.Ntfs.RunList.{Run, Cursor, read_lcn, parse_run, parse_loop, parse, on_header}
use batuta.Ntfs.RunList.{start_cursor}
use batuta.Ntfs.RunList.Decode.{Advances, parse_run_ok}

-- Errors of the parser name the offset of a header byte.
abbrev pub IsBadRun : List ℕ → NtfsError → Type 0
IsBadRun buf (bad_run_list start) = start < length_of buf
IsBadRun buf _ = ⊥

read_lcn-Answers :
    {E : NtfsError → Type 0} (buf : List ℕ) (start at n : ℕ) (prev : ℤ)
    → E (bad_run_list start)
    → Answers E (read_lcn buf start at n prev)
unfolding read_lcn
read_lcn-Answers buf start at zero prev bad = value _
read_lcn-Answers buf start at (suc n) prev bad = search answers_rules depth 8

parse_run-Answers :
    {E : NtfsError → Type 0} (buf : List ℕ) (most : Option ℕ) (header : ℕ) (c : Cursor)
    → E (bad_run_list c.pos)
    → Answers E (parse_run buf most header c)
unfolding parse_run
parse_run-Answers buf most header c bad = search (answers_rules, read_lcn-Answers) depth 14

on_header-Answers :
    {E : NtfsError → Type 0} (o : Option ℕ) (runs : List Run) (more : ℕ → Result (List Run))
    → ((h : ℕ) → o ≡ some h → Answers E (more h))
    → Answers E (on_header o runs more)
on_header-Answers none runs more k = value runs
on_header-Answers (some zero) runs more k = value runs
on_header-Answers (some (suc h)) runs more k = k (suc h) refl

parse_loop-Answers :
    (fuel : ℕ) (buf : List ℕ) (most : Option ℕ) (c : Cursor) (runs : List Run)
    → c.pos ≤ length_of buf
    → length_of buf < c.pos + fuel
    → Answers (IsBadRun buf) (parse_loop fuel buf most c runs)
unfolding parse_loop
parse_loop-Answers zero buf most c runs inside h = absurd (omega arith)
parse_loop-Answers (suc fuel) buf most c runs inside h =
    on_header-Answers (get_elem? buf c.pos) runs _ λ header e.
      Answers-bind (parse_run buf most header c) _
        (parse_run-Answers buf most header c (lt_of_get buf c.pos header e))
        λ p run.
          let a : Advances buf most c p.1 p.0 = parse_run_ok buf most header c p.1 p.0 run in
          parse_loop-Answers fuel buf most p.1 (runs ++ (p.0 ∷ [])) a.inside (omega arith)

-- `parse` ends on every input, without a panic: with runs, or with an error that names the offset
-- of a byte of the input.
pub parse_total :
    (buf : List ℕ) (max_clusters : Option ℕ)
    → ((runs : List Run) × (parse buf max_clusters ≡ ok runs))
      ⊎ ((start : ℕ) × (start < length_of buf)
          × (parse buf max_clusters ≡ err (bad_run_list start)))
unfolding parse
parse_total buf most =
    elim (Answers-cases (
      parse_loop-Answers (length_of buf + 1) buf most start_cursor [] (omega arith)
        (omega arith))) [
          | inl (runs, e) ↦ inl (runs, e)
          | inr (bad_run_list start, e, h) ↦ inr (start, h, e)
          | inr (_, e, h) ↦ absurd h
        ]
