-- ===== src/Ipc/Responses/Answered.antt =====
-- Decoding a response answers on any bytes.
use batuta.Base.{ℕ, ◌≤◌, List, ◌==◌, All, arith, subst, sym}
use Prim.Native.String.{String}
use batuta.Ntfs.Bytes.{IsByte}
use batuta.Ipc.Wire.{Read, ◌>>=◌, unknown_tag, read_each, read_count, max_rows}
use batuta.Ipc.Wire.Answering.{
  Answers, Answers-bind, Answers-done, Answers-fail, Answers-if, Decoded, Decoded-run, u8-Answers,
  bool-Answers, u32-Answers, u64-Answers, read_str-Answers, count-Answers, each-Answers,
}
use batuta.Ipc.Responses.{rows, dupes, size_info, status, error}
use batuta.Ipc.Responses.{
  row_min_bytes, group_min_bytes, vol_min_bytes, rows_tag, size_info_tag, status_info_tag,
  error_tag, dupes_info_tag, read_row, read_group, read_volume, read_rows, read_dupes,
  read_size_info, read_status, read_error, read_tagged, read_response, decode,
}
use batuta.Ipc.Responses.Carried.{IsRow, IsCounted, IsGroup, IsVolume, IsResponse}

-- A count, that many entries, and what is made of them.
counted-Answers :
    {A B : Type 0} {P : A → Type 0} {Q : B → Type 0} (least : ℕ) (what : String) (p : Read A)
    (k : List A → Read B)
    → least ≤ 1024
    → Answers P p
    → ((xs : List A) → IsCounted P xs → Answers Q (k xs))
    → Answers Q (read_count least what >>= λ n. read_each p n >>= k)
counted-Answers {P} least what p k small h t =
    Answers-bind _ _ (count-Answers least what small) λ n few.
      Answers-bind _ _ (each-Answers p n h)
        λ xs each. t xs (record { few = subst (λ m. m ≤ max_rows) (sym each.0) few; each = each.1 })

read_row-Answers : Answers IsRow read_row
unfolding read_row
read_row-Answers = Answers-bind _ _ read_str-Answers λ path hpath.
    Answers-bind _ _ u64-Answers λ size hsize. Answers-bind _ _ u32-Answers λ mtime hmtime.
      Answers-bind _ _ bool-Answers λ is_dir _. Answers-bind _ _ u32-Answers λ files hfiles.
        Answers-bind _ _ u64-Answers λ own hown. Answers-done _ (record {
          path_ok = hpath;
          size_ok = hsize;
          mtime_ok = hmtime;
          files_ok = hfiles;
          own_ok = hown;
        })

read_group-Answers : Answers IsGroup read_group
unfolding read_group
read_group-Answers = Answers-bind _ _ u64-Answers λ size hsize.
    Answers-bind _ _ u64-Answers λ wasted hwasted.
      counted-Answers row_min_bytes "copies" read_row _ (omega arith) read_row-Answers
        λ copies h. Answers-done _ (record { size_ok = hsize; wasted_ok = hwasted; rows_ok = h })

read_volume-Answers : Answers IsVolume read_volume
unfolding read_volume
read_volume-Answers = Answers-bind _ _ read_str-Answers λ drive hdrive.
    Answers-bind _ _ u64-Answers λ files hfiles. Answers-bind _ _ u64-Answers λ size hsize.
      Answers-bind _ _ u64-Answers λ next_usn hnext.
        Answers-bind _ _ bool-Answers λ journal_active _.
          Answers-done _
            (record { drive_ok = hdrive; files_ok = hfiles; size_ok = hsize; next_usn_ok = hnext })

rows-Answers : Answers IsResponse read_rows
unfolding read_rows
rows-Answers = Answers-bind _ _ u64-Answers λ total htotal.
    Answers-bind _ _ u64-Answers λ elapsed_us helapsed.
      counted-Answers row_min_bytes "rows" read_row _ (omega arith) read_row-Answers
        λ found h. Answers-done (rows found total elapsed_us) (h, htotal, helapsed)

dupes-Answers : Answers IsResponse read_dupes
unfolding read_dupes
dupes-Answers = Answers-bind _ _ u64-Answers λ wasted_total hwasted.
    Answers-bind _ _ u64-Answers λ elapsed_us helapsed.
      counted-Answers group_min_bytes "groups" read_group _ (omega arith) read_group-Answers
        λ groups h. Answers-done (dupes groups wasted_total elapsed_us) (h, hwasted, helapsed)

size_info-Answers : Answers IsResponse read_size_info
unfolding read_size_info
size_info-Answers = Answers-bind _ _ read_str-Answers λ path hpath.
    Answers-bind _ _ u64-Answers λ total htotal. Answers-bind _ _ u64-Answers λ alloc halloc.
      Answers-bind _ _ u64-Answers λ files hfiles.
        counted-Answers row_min_bytes "children" read_row _ (omega arith) read_row-Answers
          λ children h.
            Answers-done (size_info path total alloc files children)
              (hpath, htotal, halloc, hfiles, h)

status-Answers : Answers IsResponse read_status
unfolding read_status
status-Answers = Answers-bind _ _ u64-Answers λ nodes hnodes.
    Answers-bind _ _ u64-Answers λ memory hmemory. Answers-bind _ _ bool-Answers λ watching _.
      Answers-bind _ _ u64-Answers λ changes_applied happlied.
        counted-Answers vol_min_bytes "volumes" read_volume _ (omega arith) read_volume-Answers
          λ volumes h.
            Answers-done (status nodes memory watching changes_applied volumes)
              (hnodes, hmemory, happlied, h)

error-Answers : Answers IsResponse read_error
unfolding read_error
error-Answers = Answers-bind _ _ read_str-Answers λ message h. Answers-done (error message) h

tagged-Answers : (t : ℕ) → Answers IsResponse (read_tagged t)
unfolding read_tagged
tagged-Answers t =
    Answers-if (t == rows_tag) _ _ (λ _. rows-Answers)
      λ _.
        Answers-if (t == dupes_info_tag) _ _ (λ _. dupes-Answers)
          λ _.
            Answers-if (t == size_info_tag) _ _ (λ _. size_info-Answers)
              λ _.
                Answers-if (t == status_info_tag) _ _ (λ _. status-Answers)
                  λ _.
                    Answers-if (t == error_tag) _ _ (λ _. error-Answers)
                      λ _. Answers-fail (unknown_tag t) tt

-- On any bytes, decoding a response gives one whose strings are valid UTF-8 of 64 KiB at most, whose
-- integers fit their width and whose lists have a million entries at most, or an error that is not one
-- of input or output; it never panics.
pub decode-Decoded-IsResponse : (buf : List ℕ) → All IsByte buf → Decoded IsResponse (decode buf)
unfolding decode read_response
decode-Decoded-IsResponse buf bytes =
    Decoded-run read_response buf (Answers-bind _ _ u8-Answers λ t _. tagged-Answers t) bytes
