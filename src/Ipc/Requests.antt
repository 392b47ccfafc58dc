-- ===== src/Ipc/Requests.antt =====
-- crates/batuta-ipc/src/lib.rs, its requests: `Request`, and its encoding.
pub mod Carried
pub mod Answered
pub mod Sent
use batuta.Base.{ℕ, zero, suc, Bool, true, false, Option, none, some, List, [], ◌∷◌}
use batuta.Base.{◌==◌, if◌then◌else◌}
use batuta.Ipc.Wire.{Result, ok, err, panic, unknown_tag, Str, Writer, Write, new_writer, ◌⟫◌}
use batuta.Ipc.Wire.{Reader, Read, new_reader, bind, ◌>>=◌, done, fail}
use batuta.Ipc.Wire.{
  write_u8, write_bool, write_u32, write_u64, write_str, write_opt_str, write_opt_u64,
}
use batuta.Ipc.Wire.{read_u8, read_bool, read_u32, read_u64, read_str, read_opt_str, read_opt_u64}

pub record SearchArgs : Type 0 where
  pub query : Str
  pub glob : Bool
  pub case_sensitive : Bool
  pub ext : Option Str
  pub min_size : Option ℕ
  pub max_size : Option ℕ
  pub under : Option Str
  pub dirs_only : Bool
  pub files_only : Bool
  pub include_excluded : Bool
  pub sort : ℕ
  pub offset : ℕ
  pub limit : ℕ

-- The fields of a constructor stand in the source's order.
pub data Request : Type 0 where
  search_request : SearchArgs → Request
  size : (path : Str) (top : ℕ) → Request
  bloat : (top : ℕ) (under : Option Str) → Request
  dupes : (min_size top : ℕ) (under : Option Str) → Request
  status rescan : Request

abbrev pub search_tag : ℕ
search_tag = 1

abbrev pub size_tag : ℕ
size_tag = 2

abbrev pub bloat_tag : ℕ
bloat_tag = 3

abbrev pub status_tag : ℕ
status_tag = 4

abbrev pub rescan_tag : ℕ
rescan_tag = 5

abbrev pub dupes_tag : ℕ
dupes_tag = 6

unfoldable pub write_search : SearchArgs → Write
unfolding write_u8 write_bool write_u32 write_str write_opt_str write_opt_u64
write_search a =
    write_u8 search_tag
    ⟫ write_str a.query
    ⟫ write_bool a.glob
    ⟫ write_bool a.case_sensitive
    ⟫ write_opt_str a.ext
    ⟫ write_opt_u64 a.min_size
    ⟫ write_opt_u64 a.max_size
    ⟫ write_opt_str a.under
    ⟫ write_bool a.dirs_only
    ⟫ write_bool a.files_only
    ⟫ write_bool a.include_excluded
    ⟫ write_u8 a.sort
    ⟫ write_u32 a.offset
    ⟫ write_u32 a.limit

-- The arms of `encode`.
unfoldable pub write_request : Request → Write
unfolding write_search write_u8 write_bool write_u32 write_u64 write_str write_opt_str
write_request (search_request a) = write_search a
write_request (size path top) = write_u8 size_tag ⟫ write_str path ⟫ write_u32 top
write_request (bloat top under) = write_u8 bloat_tag ⟫ write_u32 top ⟫ write_opt_str under
write_request (dupes min_size top under) =
    write_u8 dupes_tag ⟫ write_u64 min_size ⟫ write_u32 top ⟫ write_opt_str under
write_request status = write_u8 status_tag
write_request rescan = write_u8 rescan_tag

unfoldable pub encode : Request → List ℕ
unfolding write_request
encode request = (write_request request new_writer).buf

unfoldable pub read_search : Read Request
unfolding read_u8 read_bool read_u32 read_str read_opt_str read_opt_u64
read_search = do
  query ← read_str
  glob ← read_bool
  case_sensitive ← read_bool
  ext ← read_opt_str
  min_size ← read_opt_u64
  max_size ← read_opt_u64
  under ← read_opt_str
  dirs_only ← read_bool
  files_only ← read_bool
  include_excluded ← read_bool
  sort ← read_u8
  offset ← read_u32
  limit ← read_u32
  done (
      search_request (record {
        query = query;
        glob = glob;
        case_sensitive = case_sensitive;
        ext = ext;
        min_size = min_size;
        max_size = max_size;
        under = under;
        dirs_only = dirs_only;
        files_only = files_only;
        include_excluded = include_excluded;
        sort = sort;
        offset = offset;
        limit = limit;
      }))

unfoldable pub read_size : Read Request
unfolding read_str read_u32
read_size = do path ← read_str; top ← read_u32; done (size path top)

unfoldable pub read_bloat : Read Request
unfolding read_u32 read_opt_str
read_bloat = do top ← read_u32; under ← read_opt_str; done (bloat top under)

unfoldable pub read_dupes : Read Request
unfolding read_u64 read_u32 read_opt_str
read_dupes = do
  min_size ← read_u64
  top ← read_u32
  under ← read_opt_str
  done (dupes min_size top under)

-- The arms of `decode`, by the tag.
unfoldable pub read_tagged : ℕ → Read Request
unfolding read_search read_size read_bloat read_dupes
read_tagged t =
    if t == search_tag
    then read_search
    else if t == size_tag
    then read_size
    else if t == bloat_tag
    then read_bloat
    else if t == dupes_tag
    then read_dupes
    else if t == status_tag
    then done status
    else if t == rescan_tag
    then done rescan
    else fail (unknown_tag t)

unfoldable pub read_request : Read Request
unfolding read_u8 read_tagged
read_request = read_u8 >>= read_tagged

-- What is left of the buffer is not looked at.
unfoldable pub decode : List ℕ → Result Request
unfolding read_request
decode buf = bind (read_request (new_reader buf)) λ (request, r). ok request
