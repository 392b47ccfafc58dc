-- ===== src/Ntfs/Usn.antt =====
-- crates/batuta-ntfs/src/usn.rs: the records in a buffer that was read from the change journal.
mod Tests
pub mod Reading
use batuta.Base.{
  ℕ, zero, suc, ◌+◌, ◌%◌, ◌≤◌, ◌^◌, bit_and, Bool, true, false, not, ◌&&◌, ◌||◌, Option, none, some,
  List, [], length, ltb, leb, ◌==◌, if◌then◌else◌,
}
use batuta.Base.Int.{ℤ, pos_part, neg_part, as_i64}
use batuta.Base.Fallible.{◌>>=◌, ◌>>◌}
use batuta.Ntfs.Bytes.{Result, ok, err, truncated, unwrap_or, slice, u16_at, u32_at, u64_at}

pub record UsnRecord : Type 0 where
  pub usn : ℤ
  pub file_ref : ℕ
  pub parent_ref : ℕ
  pub reason : ℕ
  pub attributes : ℕ
  pub name_utf16 : List ℕ

unfoldable pub is_directory : UsnRecord → Bool
is_directory r = not (bit_and r.attributes 0x10 == 0)

unfoldable pub has : UsnRecord → ℕ → Bool
has r mask = not (bit_and r.reason mask == 0)

-- `DATA_EXTEND | DATA_TRUNCATION | DATA_OVERWRITE`
unfoldable pub affects_size : UsnRecord → Bool
unfolding has
affects_size r = has r 7

pub record UsnRecords : Type 0 where
  pub buf : List ℕ
  pub pos : ℕ

-- `UsnRecords::new`: the USN to resume from, and the records behind it.
unfoldable pub records : List ℕ → ℤ × UsnRecords
records buf = (as_i64 (unwrap_or (u64_at buf 0) 0), record { buf = buf; pos = 8 })

abbrev pub or_no_name : Option (List ℕ) → List ℕ
or_no_name (some n) = n
or_no_name none = []

-- A name that does not lie behind the fixed fields, or inside the record, reads as empty.
unfoldable pub read_record : List ℕ → Option UsnRecord
read_record rec = do
  name_len ← u16_at rec 0x38
  name_off ← u16_at rec 0x3A
  usn ← u64_at rec 0x18
  file_ref ← u64_at rec 0x08
  parent_ref ← u64_at rec 0x10
  reason ← u32_at rec 0x28
  attributes ← u32_at rec 0x34
  some (record {
    usn = as_i64 usn;
    file_ref = file_ref;
    parent_ref = parent_ref;
    reason = reason;
    attributes = attributes;
    name_utf16 = if leb 0x3C name_off then or_no_name (slice rec name_off name_len) else [];
  })

-- What `next` returns, and the iterator afterwards; `none` is a loop out of rounds.
abbrev pub Next : Type 0
Next = Option (Option UsnRecord × UsnRecords)

-- The iterator has moved past the record; other versions than 2 are skipped.
abbrev pub on_version : Option ℕ → ℕ → ℕ → UsnRecords → Next → Next
on_version none base len it rest = some (none, it)
on_version (some major) base len it rest =
    if not (major == 2) then rest else some (slice it.buf base len >>= read_record, it)

abbrev pub moved : UsnRecords → ℕ → UsnRecords
moved it len = record it { pos = it.pos + len }

abbrev pub on_len : Option ℕ → UsnRecords → (UsnRecords → Next) → Next
on_len none it again = some (none, it)
on_len (some len) it again =
    if ltb len 0x3C || not (len % 8 == 0) || ltb (length it.buf) (it.pos + len)
    then some (none, it)
    else on_version (u16_at it.buf (it.pos + 4)) it.pos len (moved it len) (again (moved it len))

unfoldable pub next_loop : ℕ → UsnRecords → Next
next_loop zero it = none
next_loop (suc fuel) it =
    if ltb (length it.buf) (it.pos + 4)
    then some (none, it)
    else on_len (u32_at it.buf it.pos) it λ it'. next_loop fuel it'

-- A round that goes on moves 60 bytes or more, so a round for each byte and one more is enough.
unfoldable pub next : UsnRecords → Next
next it = next_loop (length it.buf + 1) it

pub record JournalInfo : Type 0 where
  pub id : ℕ
  pub first_usn : ℤ
  pub next_usn : ℤ
  pub max_size : ℕ
  pub allocation_delta : ℕ

unfoldable pub parse : List ℕ → Result JournalInfo
parse buf =
    if ltb (length buf) 56
    then err (truncated 56 (length buf))
    else ok (record {
      id = unwrap_or (u64_at buf 0) 0;
      first_usn = as_i64 (unwrap_or (u64_at buf 8) 0);
      next_usn = as_i64 (unwrap_or (u64_at buf 16) 0);
      max_size = unwrap_or (u64_at buf 40) 0;
      allocation_delta = unwrap_or (u64_at buf 48) 0;
    })

abbrev pub le_ℤ : ℤ → ℤ → Bool
le_ℤ a b = leb (pos_part a + neg_part b) (pos_part b + neg_part a)

unfoldable pub can_resume_from : JournalInfo → ℤ → Bool
can_resume_from j usn = le_ℤ j.first_usn usn && le_ℤ usn j.next_usn
