-- ===== src/Ntfs/Attributes.antt =====
-- crates/batuta-ntfs/src/record.rs: the attributes of a file record and the iterator over them.
pub mod Reading
pub mod Iteration
mod Tests
use batuta.Base.{ℕ, zero, suc, ◌+◌, ◌-◌, ◌*◌, ◌/◌, ◌%◌, ◌≤◌, ◌<◌, bit_and, bit_or, min}
use batuta.Base.{Bool, true, false, not, ◌&&◌, ◌||◌, Option, none, some, List, [], ◌∷◌}
use batuta.Base.{length, ltb, leb, ◌==◌, if◌then◌else◌}
use batuta.Ntfs.Bytes.{
  Result, ok, err, panic, stuck, bad_attribute, ok_or, or_panic, reject, unwrap_or,
}
use batuta.Ntfs.Bytes.{slice, u8_at, u16_at, u32_at, u64_at, ◌>>=◌, ◌>>◌}
use batuta.Ntfs.Record.{FileRecord}

pub record Extent : Type 0 where
  pub start_vcn : ℕ
  pub last_vcn : ℕ
  pub allocated_size : ℕ
  pub real_size : ℕ
  pub initialized_size : ℕ
  pub runs : List ℕ

pub data AttrBody : Type 0 where
  resident : List ℕ → AttrBody
  non_resident : Extent → AttrBody

pub record Attribute : Type 0 where
  pub ty : ℕ
  pub flags : ℕ
  pub id : ℕ
  pub name_utf16 : List ℕ
  pub body : AttrBody

unfoldable pub is_unnamed : Attribute → Bool
is_unnamed a = length a.name_utf16 == 0

unfoldable pub is_sparse_or_compressed : Attribute → Bool
is_sparse_or_compressed a = not (bit_and a.flags (bit_or 0x8000 0x0001) == 0)

abbrev body_data_size : AttrBody → ℕ
body_data_size (resident v) = length v
body_data_size (non_resident x) = x.real_size

unfoldable pub data_size : Attribute → ℕ
data_size a = body_data_size a.body

abbrev body_allocated_size : AttrBody → ℕ
body_allocated_size (resident v) = length v
body_allocated_size (non_resident x) = x.allocated_size

unfoldable pub allocated_size : Attribute → ℕ
allocated_size a = body_allocated_size a.body

abbrev body_is_first : AttrBody → Bool
body_is_first (resident v) = true
body_is_first (non_resident x) = x.start_vcn == 0

-- Continuations of a fragmented attribute start at a VCN that is not zero.
unfoldable pub is_first_fragment : Attribute → Bool
is_first_fragment a = body_is_first a.body

pub record AttrIter : Type 0 where
  pub buf : List ℕ
  pub pos : ℕ
  pub limit : ℕ
  pub done : Bool

unfoldable pub attributes : FileRecord → List ℕ → AttrIter
attributes r buf = record {
  buf = buf;
  pos = r.first_attr_offset;
  limit = min r.used_size (length buf);
  done = false;
}

abbrev pub attr_end : ℕ
attr_end = 0xFFFF_FFFF

unfoldable pub read_name : List ℕ → ℕ → ℕ → Result (List ℕ)
read_name buf base len =
    let name_len = unwrap_or (u8_at buf (base + 0x09)) 0 * 2 in
    let name_off = unwrap_or (u16_at buf (base + 0x0A)) 0 in
    if name_len == 0
    then ok []
    else if leb (name_off + name_len) len
    then ok_or (slice buf (base + name_off) name_len) (bad_attribute base)
    else err (bad_attribute base)

-- `&self.buf[base + runs_off..base + len]` panics out of range.
unfoldable pub read_non_resident : List ℕ → ℕ → ℕ → Result AttrBody
read_non_resident buf base len = do
  let runs_off = unwrap_or (u16_at buf (base + 0x20)) 0
  reject (ltb runs_off 0x40 || ltb len runs_off) (bad_attribute base)
  runs ← or_panic (slice buf (base + runs_off) (len - runs_off))
  ok (
      non_resident (record {
        start_vcn = unwrap_or (u64_at buf (base + 0x10)) 0;
        last_vcn = unwrap_or (u64_at buf (base + 0x18)) 0;
        allocated_size = unwrap_or (u64_at buf (base + 0x28)) 0;
        real_size = unwrap_or (u64_at buf (base + 0x30)) 0;
        initialized_size = unwrap_or (u64_at buf (base + 0x38)) 0;
        runs = runs;
      }))

unfoldable pub read_resident : List ℕ → ℕ → ℕ → Result AttrBody
read_resident buf base len = do
  let val_len = unwrap_or (u32_at buf (base + 0x10)) 0
  let val_off = unwrap_or (u16_at buf (base + 0x14)) 0
  reject (ltb len (val_off + val_len)) (bad_attribute base)
  value ← ok_or (slice buf (base + val_off) val_len) (bad_attribute base)
  ok (resident value)

unfoldable pub read_attribute : List ℕ → ℕ → ℕ → ℕ → Result Attribute
read_attribute buf base len ty = do
  name ← read_name buf base len
  body ←
      (if unwrap_or (u8_at buf (base + 0x08)) 0 == 0
        then read_resident buf base len
        else read_non_resident buf base len)
  ok (record {
    ty = ty;
    flags = unwrap_or (u16_at buf (base + 0x0C)) 0;
    id = unwrap_or (u16_at buf (base + 0x0E)) 0;
    name_utf16 = name;
    body = body;
  })

-- What `next` returns, and the iterator that it leaves.
abbrev pub Next : Type 0
Next = Option (Result Attribute) × AttrIter

-- An error ends the iteration.
abbrev pub yield_item : Result Attribute → AttrIter → Next
yield_item (ok a) it = (some (ok a), it)
yield_item (err e) it = (some (err e), record it { done = true })
yield_item panic it = (some panic, it)
yield_item stuck it = (some stuck, it)

abbrev pub on_type : Option ℕ → AttrIter → Next
on_type none it = (none, it)
on_type (some ty) it =
    let base = it.pos in
    let len = unwrap_or (u32_at it.buf (base + 4)) 0 in
    if ty == attr_end
    then (none, record it { done = true })
    else if ltb len 16 || not (len % 8 == 0) || ltb it.limit (base + len)
    then (some (err (bad_attribute base)), record it { done = true })
    else yield_item (read_attribute it.buf base len ty) (record it { pos = base + len })

unfoldable pub next : AttrIter → Next
next it =
    if it.done || ltb it.limit (it.pos + 8) then (none, it) else on_type (u32_at it.buf it.pos) it
