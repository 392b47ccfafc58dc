-- ===== src/Ipc/Responses/Carried.antt =====
-- A response is decoded from its encoding.
use batuta.Base.{ℕ, ◌^◌, ◌≤◌, ◌<◌, ◌≡◌, refl, arith, All}
use batuta.Base.{List, [], ◌∷◌, ◌++◌, length}
use batuta.Ipc.Wire.{ok, max_rows}
use batuta.Ipc.Wire.Carrying.{
  Reads-done, Carries, Carries-bind, Carries-then, Carries-weaken, Carries-run, u8-Carries,
  u32-Carries, u64-Carries, bool-Carries,
}
use batuta.Ipc.Wire.Fields.{IsStr, str-Carries, counted-Carries}
use batuta.Ipc.Responses.{
  Row, DupeGroupRows, VolumeStatus, Response, rows, dupes, size_info, status, error,
}
use batuta.Ipc.Responses.{
  row_min_bytes, group_min_bytes, vol_min_bytes, rows_tag, size_info_tag, status_info_tag,
  error_tag, dupes_info_tag, write_row, write_rows, write_group, write_volume, write_response,
  encode, read_row, read_group, read_volume, read_rows, read_dupes, read_size_info, read_status,
  read_error, read_tagged, read_response, decode,
}

-- Strings that are valid UTF-8 of 64 KiB at most, and integers in their width.
pub record IsRow (row : Row) : Type 0 where
  pub path_ok : IsStr row.path
  pub size_ok : row.size < 2 ^ 64
  pub mtime_ok : row.mtime < 2 ^ 32
  pub files_ok : row.files < 2 ^ 32
  pub own_ok : row.own < 2 ^ 64

-- A list that `read_count` accepts.
pub record IsCounted {A : Type 0} (P : A → Type 0) (xs : List A) : Type 0 where
  pub few : length xs ≤ max_rows
  pub each : All P xs

pub record IsGroup (g : DupeGroupRows) : Type 0 where
  pub size_ok : g.size < 2 ^ 64
  pub wasted_ok : g.wasted < 2 ^ 64
  pub rows_ok : IsCounted IsRow g.rows

pub record IsVolume (v : VolumeStatus) : Type 0 where
  pub drive_ok : IsStr v.drive
  pub files_ok : v.files < 2 ^ 64
  pub size_ok : v.size < 2 ^ 64
  pub next_usn_ok : v.next_usn < 2 ^ 64

abbrev pub IsResponse : Response → Type 0
IsResponse (rows found total elapsed_us) =
    IsCounted IsRow found × (total < 2 ^ 64) × (elapsed_us < 2 ^ 64)
IsResponse (dupes groups wasted_total elapsed_us) =
    IsCounted IsGroup groups × (wasted_total < 2 ^ 64) × (elapsed_us < 2 ^ 64)
IsResponse (size_info path total alloc files children) =
    IsStr path × (total < 2 ^ 64) × (alloc < 2 ^ 64) × (files < 2 ^ 64) × IsCounted IsRow children
IsResponse (status nodes memory watching changes_applied volumes) =
    (nodes < 2 ^ 64) × (memory < 2 ^ 64) × (changes_applied < 2 ^ 64) × IsCounted IsVolume volumes
IsResponse (error message) = IsStr message

All-map :
    {A : Type 0} {P Q : A → Type 0} → ((a : A) → P a → Q a) → (xs : List A) → All P xs → All Q xs
All-map k [] h = tt
All-map k (x ∷ xs) h = (k x h.0, All-map k xs h.1)

row-Carries : (row : Row) → IsRow row → Carries row_min_bytes (write_row row) read_row row
unfolding write_row read_row
row-Carries row h = Carries-bind _ (str-Carries row.path h.path_ok) (
    Carries-bind _ (u64-Carries row.size h.size_ok) (
      Carries-bind _ (u32-Carries row.mtime h.mtime_ok) (
        Carries-bind _ (bool-Carries row.is_dir) (
          Carries-bind _ (u32-Carries row.files h.files_ok)
            (Carries-then _ (u64-Carries row.own h.own_ok) (Reads-done _))))))

volume-Carries :
    (v : VolumeStatus) → IsVolume v → Carries vol_min_bytes (write_volume v) read_volume v
unfolding write_volume read_volume
volume-Carries v h = Carries-bind _ (str-Carries v.drive h.drive_ok) (
    Carries-bind _ (u64-Carries v.files h.files_ok) (
      Carries-bind _ (u64-Carries v.size h.size_ok) (
        Carries-bind _ (u64-Carries v.next_usn h.next_usn_ok)
          (Carries-then _ (bool-Carries v.journal_active) (Reads-done _)))))

group-Carries :
    (g : DupeGroupRows) → IsGroup g → Carries group_min_bytes (write_group g) read_group g
unfolding write_group write_rows read_group
group-Carries g h = Carries-bind _ (u64-Carries g.size h.size_ok) (
    Carries-bind _ (u64-Carries g.wasted h.wasted_ok) (
      counted-Carries row_min_bytes "copies" write_row read_row g.rows _ _ h.rows_ok.few
        (All-map row-Carries g.rows h.rows_ok.each) (Reads-done _)))

response-Carries : (q : Response) → IsResponse q → Carries 1 (write_response q) read_response q
unfolding write_response read_response read_tagged read_rows read_dupes read_size_info read_status
    read_error write_rows
response-Carries (rows found total elapsed_us) h = Carries-weaken (omega arith) (
    Carries-bind _ (u8-Carries rows_tag) (
      Carries-bind _ (u64-Carries total h.1) (
        Carries-bind _ (u64-Carries elapsed_us h.2) (
          counted-Carries row_min_bytes "rows" write_row read_row found _ _ h.0.few
            (All-map row-Carries found h.0.each) (Reads-done _)))))
response-Carries (dupes groups wasted_total elapsed_us) h = Carries-weaken (omega arith) (
    Carries-bind _ (u8-Carries dupes_info_tag) (
      Carries-bind _ (u64-Carries wasted_total h.1) (
        Carries-bind _ (u64-Carries elapsed_us h.2) (
          counted-Carries group_min_bytes "groups" write_group read_group groups _ _ h.0.few
            (All-map group-Carries groups h.0.each) (Reads-done _)))))
response-Carries (size_info path total alloc files children) h = Carries-weaken (omega arith) (
    Carries-bind _ (u8-Carries size_info_tag) (
      Carries-bind _ (str-Carries path h.0) (
        Carries-bind _ (u64-Carries total h.1) (
          Carries-bind _ (u64-Carries alloc h.2) (
            Carries-bind _ (u64-Carries files h.3) (
              counted-Carries row_min_bytes "children" write_row read_row children _ _ h.4.few
                (All-map row-Carries children h.4.each) (Reads-done _)))))))
response-Carries (status nodes memory watching changes_applied volumes) h =
    Carries-weaken (omega arith) (
      Carries-bind _ (u8-Carries status_info_tag) (
        Carries-bind _ (u64-Carries nodes h.0) (
          Carries-bind _ (u64-Carries memory h.1) (
            Carries-bind _ (bool-Carries watching) (
              Carries-bind _ (u64-Carries changes_applied h.2) (
                counted-Carries vol_min_bytes "volumes" write_volume read_volume volumes _ _ h.3.few
                  (All-map volume-Carries volumes h.3.each) (Reads-done _)))))))
response-Carries (error message) h =
    Carries-weaken (omega arith) (
      Carries-bind _ (u8-Carries error_tag) (Carries-then _ (str-Carries message h) (Reads-done _)))

-- A response with valid UTF-8 strings of 64 KiB at most, integers that fit their width and lists of a
-- million entries at most, encoded, is decoded to itself, whatever bytes follow it, while the whole is
-- no longer than an address space of 64 bits allows.
pub decode-encode_response :
    (q : Response) (rest : List ℕ)
    → IsResponse q
    → length (encode q ++ rest) < 2 ^ 64
    → decode (encode q ++ rest) ≡ ok q
unfolding encode decode
decode-encode_response q rest h small =
    let (r, e) = Carries-run (response-Carries q h) rest small in rw e refl
