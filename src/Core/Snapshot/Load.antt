-- ===== src/Core/Snapshot/Load.antt =====
-- crates/batuta-core/src/snapshot.rs: `load`, over the bytes of the file. The ten columns are read one
-- after the other and then stand as one list of rows; the hash is a parameter, a function of the bytes
-- it was fed with.
pub mod Loading
pub mod Whole
pub mod RoundTrip
use batuta.Base.{ℕ, zero, suc, ◌+◌, ◌-◌, ◌*◌, ◌%◌, ◌^◌, Bool, true, false, not, ◌||◌, List, [], ◌∷◌}
use batuta.Base.{length, take, drop, ltb, leb, ◌==◌, if◌then◌else◌}
use batuta.Base.Int.{as_i64}
use batuta.Ntfs.Bytes.{from_le_bytes}
use batuta.Ntfs.Boot.{bytes_eq}
use batuta.Core.Index.{Index, Node, VolumeInfo}
use batuta.Core.Snapshot.{
  SnapshotError, bad_magic, version, endian, corrupt, truncated, checksum, io, Result, ok, err,
  validate,
}
use batuta.Core.Snapshot.File.{magic, format_version, endian_mark, number_at, is_char}

-- `panic` is a vector longer than an allocation can be.
pub data Outcome {ℓ} (A : Type ℓ) : Type ℓ where
  done : A → Outcome A
  fails : SnapshotError → Outcome A
  panic : Outcome A

infixl 5 ◌>>=◌
abbrev pub ◌>>=◌ {ℓ κ} : {A : Type ℓ} {B : Type κ} → Outcome A → (A → Outcome B) → Outcome B
done a >>= next = next a
fails e >>= next = fails e
panic >>= next = panic

-- `if bad { return Err(e) }`
abbrev pub refuse : Bool → SnapshotError → Outcome (Unit {0})
refuse true e = fails e
refuse false e = done tt

abbrev pub max_nodes : ℕ
max_nodes = 512_000_000

-- The next `n` numbers of `width` bytes.
unfoldable pub numbers : ℕ → ℕ → List ℕ → List ℕ
unfolding from_le_bytes
numbers width zero bytes = []
numbers width (suc n) bytes = from_le_bytes (take width bytes) ∷ numbers width n (drop width bytes)

-- `vec![0; n]` and `read_exact` into it.
unfoldable pub read_vec : ℕ → ℕ → List ℕ → Outcome (List ℕ × List ℕ)
unfolding numbers
read_vec width n bytes =
    if leb (2 ^ 63) (n * width)
    then panic
    else if ltb (length bytes) (n * width)
    then fails (io "failed to fill whole buffer")
    else done (numbers width n bytes, drop (n * width) bytes)

-- A volume from its 40 bytes, and how many records it has.
unfoldable pub volume_of : List ℕ → Outcome (VolumeInfo × ℕ)
unfolding number_at is_char as_i64
volume_of buf = do
  _ ← refuse (not (is_char (number_at 4 0 buf))) (corrupt "bad drive letter")
  _ ← refuse (ltb max_nodes (number_at 8 32 buf)) (corrupt "implausible record table length")
  done (
    record {
      drive = number_at 4 0 buf;
      root = number_at 4 4 buf;
      first_node = number_at 4 8 buf;
      node_count = number_at 4 12 buf;
      serial = number_at 8 16 buf;
      next_usn = as_i64 (number_at 8 24 buf);
    },
    number_at 8 32 buf,
  )

-- The volumes, their record counts and what is left.
unfoldable pub read_volumes : ℕ → List ℕ → Outcome (List VolumeInfo × List ℕ × List ℕ)
unfolding volume_of
read_volumes zero bytes = done ([], [], bytes)
read_volumes (suc n) bytes = do
  _ ← refuse (ltb (length bytes) 40) (io "failed to fill whole buffer")
  (v, len) ← volume_of (take 40 bytes)
  (volumes, lens, rest) ← read_volumes n (drop 40 bytes)
  done (v ∷ volumes, len ∷ lens, rest)

unfoldable pub read_tables : List ℕ → List ℕ → Outcome (List (List ℕ) × List ℕ)
unfolding read_vec
read_tables [] bytes = done ([], bytes)
read_tables (len ∷ lens) bytes = do
  (table, after) ← read_vec 4 len bytes
  (tables, rest) ← read_tables lens after
  done (table ∷ tables, rest)

abbrev pub first_of : List ℕ → ℕ
first_of [] = 0
first_of (x ∷ xs) = x

abbrev pub rest_of : List ℕ → List ℕ
rest_of [] = []
rest_of (x ∷ xs) = xs

-- The columns, which have one length, as rows.
unfoldable pub rows_of :
    List ℕ
    → List ℕ
    → List ℕ
    → List ℕ
    → List ℕ
    → List ℕ
    → List ℕ
    → List ℕ
    → List ℕ
    → List ℕ
    → List Node
rows_of [] b c d e f g h i j = []
rows_of (a ∷ more) b c d e f g h i j =
    record {
      parent = a;
      name_off = first_of b;
      name_len = first_of c;
      flags = first_of d;
      size = first_of e;
      alloc = first_of f;
      mtime = first_of g;
      subtree_files = first_of h;
      depth = first_of i;
      sequence = first_of j;
    }
    ∷ rows_of more (rest_of b) (rest_of c) (rest_of d) (rest_of e) (rest_of f) (rest_of g)
        (rest_of h) (rest_of i) (rest_of j)

unfoldable pub read_columns : ℕ → List ℕ → Outcome (List Node × List ℕ)
unfolding read_vec rows_of
read_columns n bytes = do
  (parent, after_parent) ← read_vec 4 n bytes
  (name_off, after_name_off) ← read_vec 4 n after_parent
  (name_len, after_name_len) ← read_vec 2 n after_name_off
  (flags, after_flags) ← read_vec 2 n after_name_len
  (size, after_size) ← read_vec 8 n after_flags
  (alloc, after_alloc) ← read_vec 8 n after_size
  (mtime, after_mtime) ← read_vec 4 n after_alloc
  (subtree_files, after_subtree_files) ← read_vec 4 n after_mtime
  (depth, after_depth) ← read_vec 2 n after_subtree_files
  (sequence, rest) ← read_vec 2 n after_depth
  done (rows_of parent name_off name_len flags size alloc mtime subtree_files depth sequence, rest)

abbrev pub total : List ℕ → ℕ
total [] = 0
total (n ∷ ns) = n + total ns

-- The arrays after the volumes.
unfoldable pub read_index : ℕ → ℕ → List VolumeInfo → List ℕ → List ℕ → Outcome (Index × List ℕ)
unfolding read_columns read_tables read_vec
read_index n name_bytes volumes lens bytes = do
  (rows, after) ← read_columns n bytes
  (names, tables_at) ← read_vec 1 name_bytes after
  (tables, rest) ← read_tables lens tables_at
  done (
    record {
      volumes = volumes;
      nodes = rows;
      names = names;
      overrides = record { arena = []; by_node = [] };
      generation = 0;
      rec_to_node = tables;
    },
    rest,
  )

-- `idx.validate()?`
abbrev pub validated : Index → Result → Outcome Index
validated ix ok = done ix
validated ix (err e) = fails e

-- What follows the header; the hash has been fed what was read.
unfoldable pub load_body : (List ℕ → ℕ) → ℕ → ℕ → ℕ → ℕ → ℕ → List ℕ → Outcome Index
unfolding read_volumes read_index validate
load_body digest file_len n name_bytes volume_count want_hash body = do
  (volumes, lens, after) ← read_volumes volume_count body
  let expected = (64 + volume_count * 40 + n * 40 + name_bytes + total lens * 4) % 2 ^ 64
  _ ← refuse (ltb file_len expected) (truncated expected file_len)
  (ix, rest) ← read_index n name_bytes volumes lens after
  _ ← refuse (not (digest (take (length body - length rest) body) == want_hash)) checksum
  validated ix (validate ix)

unfoldable pub load_header : (List ℕ → ℕ) → ℕ → List ℕ → List ℕ → Outcome Index
unfolding bytes_eq number_at load_body
load_header digest file_len header body = do
  _ ← refuse (not (bytes_eq (take 8 header) magic)) bad_magic
  _ ←
      refuse (not (number_at 4 8 header == format_version))
        (version (number_at 4 8 header) format_version)
  _ ← refuse (not (number_at 4 12 header == endian_mark)) endian
  _ ← refuse (ltb max_nodes (number_at 8 16 header)) (corrupt "implausible node count")
  _ ←
      refuse (number_at 4 32 header == 0 || ltb 64 (number_at 4 32 header))
        (corrupt "implausible volume count")
  load_body digest file_len (number_at 8 16 header) (number_at 8 24 header) (number_at 4 32 header)
      (number_at 8 40 header) body

unfoldable pub load : (List ℕ → ℕ) → List ℕ → Outcome Index
unfolding load_header
load digest file =
    if ltb (length file) 64
    then fails bad_magic
    else load_header digest (length file) (take 64 file) (drop 64 file)
