-- ===== src/Ipc/Responses.antt =====
-- crates/batuta-ipc/src/lib.rs, its responses: `Response`, and its encoding.
pub mod Carried
pub mod Answered
use batuta.Base.{ℕ, zero, suc, ◌+◌, ◌%◌, ◌^◌, Bool, true, false, List, [], ◌∷◌}
use batuta.Base.{length, ◌==◌, if◌then◌else◌}
use batuta.Ipc.Wire.{Result, ok, err, panic, unknown_tag, Str, Writer, Write, new_writer, ◌⟫◌}
use batuta.Ipc.Wire.{Reader, Read, new_reader, bind, ◌>>=◌, done, fail, write_each, read_each}
use batuta.Ipc.Wire.{write_u8, write_bool, write_u32, write_u64, write_str}
use batuta.Ipc.Wire.{read_u8, read_bool, read_u32, read_u64, read_str, read_count}

pub record Row : Type 0 where
  pub path : Str
  pub size : ℕ
  pub mtime : ℕ
  pub is_dir : Bool
  pub files : ℕ
  pub own : ℕ

pub record DupeGroupRows : Type 0 where
  pub size : ℕ
  pub wasted : ℕ
  pub rows : List Row

pub record VolumeStatus : Type 0 where
  pub drive : Str
  pub files : ℕ
  pub size : ℕ
  pub next_usn : ℕ
  pub journal_active : Bool

pub data Response : Type 0 where
  rows : (rows_found : List Row) (total elapsed_us : ℕ) → Response
  dupes : (groups : List DupeGroupRows) (wasted_total elapsed_us : ℕ) → Response
  size_info : (path : Str) (total alloc files : ℕ) (children : List Row) → Response
  status :
      (nodes memory : ℕ) (watching : Bool) (changes_applied : ℕ) (volumes : List VolumeStatus)
      → Response
  error : (message : Str) → Response

abbrev pub rows_tag : ℕ
rows_tag = 20

abbrev pub size_info_tag : ℕ
size_info_tag = 21

abbrev pub status_info_tag : ℕ
status_info_tag = 22

abbrev pub error_tag : ℕ
error_tag = 23

abbrev pub dupes_info_tag : ℕ
dupes_info_tag = 24

abbrev pub row_min_bytes : ℕ
row_min_bytes = 4 + 8 + 4 + 1 + 4 + 8

abbrev pub group_min_bytes : ℕ
group_min_bytes = 8 + 8 + 4

abbrev pub vol_min_bytes : ℕ
vol_min_bytes = 4 + 8 + 8 + 8 + 1

unfoldable pub write_row : Row → Write
unfolding write_bool write_u32 write_u64 write_str
write_row row =
    write_str row.path
    ⟫ write_u64 row.size
    ⟫ write_u32 row.mtime
    ⟫ write_bool row.is_dir
    ⟫ write_u32 row.files
    ⟫ write_u64 row.own

unfoldable pub read_row : Read Row
unfolding read_bool read_u32 read_u64 read_str
read_row = do
  path ← read_str
  size ← read_u64
  mtime ← read_u32
  is_dir ← read_bool
  files ← read_u32
  own ← read_u64
  done (record {
    path = path;
    size = size;
    mtime = mtime;
    is_dir = is_dir;
    files = files;
    own = own;
  })

-- `rows.len() as u32`, and the rows.
unfoldable pub write_rows : List Row → Write
unfolding write_u32 write_row write_each
write_rows found = write_u32 (length found % 2 ^ 32) ⟫ write_each write_row found

unfoldable pub write_group : DupeGroupRows → Write
unfolding write_u64 write_rows
write_group g = write_u64 g.size ⟫ write_u64 g.wasted ⟫ write_rows g.rows

unfoldable pub write_volume : VolumeStatus → Write
unfolding write_str write_u64 write_bool
write_volume v =
    write_str v.drive
    ⟫ write_u64 v.files
    ⟫ write_u64 v.size
    ⟫ write_u64 v.next_usn
    ⟫ write_bool v.journal_active

-- The arms of `encode`.
unfoldable pub write_response : Response → Write
unfolding write_u8 write_u32 write_u64 write_bool write_str write_rows write_group write_volume
    write_each
write_response (rows found total elapsed_us) =
    write_u8 rows_tag ⟫ write_u64 total ⟫ write_u64 elapsed_us ⟫ write_rows found
write_response (dupes groups wasted_total elapsed_us) =
    write_u8 dupes_info_tag
    ⟫ write_u64 wasted_total
    ⟫ write_u64 elapsed_us
    ⟫ write_u32 (length groups % 2 ^ 32)
    ⟫ write_each write_group groups
write_response (size_info path total alloc files children) =
    write_u8 size_info_tag
    ⟫ write_str path
    ⟫ write_u64 total
    ⟫ write_u64 alloc
    ⟫ write_u64 files
    ⟫ write_rows children
write_response (status nodes memory watching changes_applied volumes) =
    write_u8 status_info_tag
    ⟫ write_u64 nodes
    ⟫ write_u64 memory
    ⟫ write_bool watching
    ⟫ write_u64 changes_applied
    ⟫ write_u32 (length volumes % 2 ^ 32)
    ⟫ write_each write_volume volumes
write_response (error message) = write_u8 error_tag ⟫ write_str message

unfoldable pub encode : Response → List ℕ
unfolding write_response
encode response = (write_response response new_writer).buf

unfoldable pub read_group : Read DupeGroupRows
unfolding read_u64 read_count read_row read_each
read_group = do
  size ← read_u64
  wasted ← read_u64
  n ← read_count row_min_bytes "copies"
  copies ← read_each read_row n
  done (record { size = size; wasted = wasted; rows = copies })

unfoldable pub read_volume : Read VolumeStatus
unfolding read_str read_u64 read_bool
read_volume = do
  drive ← read_str
  files ← read_u64
  size ← read_u64
  next_usn ← read_u64
  journal_active ← read_bool
  done (record {
    drive = drive;
    files = files;
    size = size;
    next_usn = next_usn;
    journal_active = journal_active;
  })

unfoldable pub read_rows : Read Response
unfolding read_u64 read_count read_row read_each
read_rows = do
  total ← read_u64
  elapsed_us ← read_u64
  n ← read_count row_min_bytes "rows"
  found ← read_each read_row n
  done (rows found total elapsed_us)

unfoldable pub read_dupes : Read Response
unfolding read_u64 read_count read_group read_each
read_dupes = do
  wasted_total ← read_u64
  elapsed_us ← read_u64
  n ← read_count group_min_bytes "groups"
  groups ← read_each read_group n
  done (dupes groups wasted_total elapsed_us)

unfoldable pub read_size_info : Read Response
unfolding read_str read_u64 read_count read_row read_each
read_size_info = do
  path ← read_str
  total ← read_u64
  alloc ← read_u64
  files ← read_u64
  n ← read_count row_min_bytes "children"
  children ← read_each read_row n
  done (size_info path total alloc files children)

unfoldable pub read_status : Read Response
unfolding read_u64 read_bool read_count read_volume read_each
read_status = do
  nodes ← read_u64
  memory ← read_u64
  watching ← read_bool
  changes_applied ← read_u64
  n ← read_count vol_min_bytes "volumes"
  volumes ← read_each read_volume n
  done (status nodes memory watching changes_applied volumes)

unfoldable pub read_error : Read Response
unfolding read_str
read_error = do message ← read_str; done (error message)

-- The arms of `decode`, by the tag.
unfoldable pub read_tagged : ℕ → Read Response
unfolding read_rows read_dupes read_size_info read_status read_error
read_tagged t =
    if t == rows_tag
    then read_rows
    else if t == dupes_info_tag
    then read_dupes
    else if t == size_info_tag
    then read_size_info
    else if t == status_info_tag
    then read_status
    else if t == error_tag
    then read_error
    else fail (unknown_tag t)

unfoldable pub read_response : Read Response
unfolding read_u8 read_tagged
read_response = read_u8 >>= read_tagged

-- What is left of the buffer is not looked at.
unfoldable pub decode : List ℕ → Result Response
unfolding read_response
decode buf = bind (read_response (new_reader buf)) λ (response, r). ok response
