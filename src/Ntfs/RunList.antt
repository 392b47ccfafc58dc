-- ===== src/Ntfs/RunList.antt =====
-- crates/batuta-ntfs/src/runlist.rs: the data runs of a non-resident attribute.
pub mod Integers
pub mod Decode
pub mod Total
pub mod Encode
pub mod RoundTrip
mod Tests
use batuta.Base.{ℕ, zero, suc, ◌+◌, ◌-◌, ◌*◌, ◌/◌, ◌%◌, ◌^◌, ◌≤◌, ◌<◌, bit_and, bit_or}
use batuta.Base.{◌≡◌, Bool, true, false, not, ◌&&◌, ◌||◌, Option, none, some, List, [], ◌∷◌, ◌++◌}
use batuta.Base.{length as length_of, get_elem?, ltb, leb, ◌==◌, if◌then◌else◌}
use batuta.Base.Int.{ℤ, pos, negsuc, pos_part, neg_part, as_i64, checked_add_i64}
use batuta.Base.Fallible
use batuta.Ntfs.Bytes.{Result, ok, err, stuck, bad_run_list, ok_or, reject, slice, ◌>>=◌, ◌>>◌}

pub record Run : Type 0 where
  pub vcn : ℕ
  pub lcn : Option ℕ
  pub length : ℕ

-- `for (i, &b) in bytes.iter().enumerate() { v |= (b as u64) << (i * 8); }`
unfoldable pub or_bytes : ℕ → ℕ → List ℕ → ℕ
or_bytes v i [] = v
or_bytes v i (b ∷ bytes) = or_bytes (bit_or v (b * 2 ^ (i * 8))) (i + 1) bytes

unfoldable pub read_uint : List ℕ → ℕ → ℕ → Option ℕ
read_uint buf off size = Fallible.◌>>=◌ (slice buf off size) (λ bytes. some (or_bytes 0 0 bytes))

-- `!((1u64 << n) - 1)` is `2 ^ 64 - 2 ^ n`.
unfoldable pub sign_extend : ℕ → ℕ → ℤ
unfolding as_i64
sign_extend size raw =
    if size == 8
    then as_i64 raw
    else if bit_and raw (2 ^ (size * 8 - 1)) == 0
    then as_i64 raw
    else as_i64 (bit_or raw (2 ^ 64 - 2 ^ (size * 8)))

unfoldable pub read_int : List ℕ → ℕ → ℕ → Option ℤ
read_int buf off size = Fallible.◌>>=◌ (read_uint buf off size) (λ raw. some (sign_extend size raw))

-- The variables of the loop: `pos`, `vcn` and `prev_lcn`.
pub record Cursor : Type 0 where
  pub pos : ℕ
  pub vcn : ℕ
  pub prev_lcn : ℤ

-- The offset field: `None` for a sparse run, else the next LCN, which must not be negative.
unfoldable pub read_lcn : List ℕ → ℕ → ℕ → ℕ → ℤ → Result (Option ℕ × ℤ)
read_lcn buf start at zero prev_lcn = ok (none, prev_lcn)
read_lcn buf start at (suc n) prev_lcn = do
  delta ← ok_or (read_int buf at (suc n)) (bad_run_list start)
  next ← ok_or (checked_add_i64 prev_lcn delta) (bad_run_list start)
  reject (ltb 0 (neg_part next)) (bad_run_list start)
  ok (some (pos_part next), next)

-- `u64::checked_add`
unfoldable pub checked_add_u64 : ℕ → ℕ → Option ℕ
checked_add_u64 a b = if ltb (a + b) (2 ^ 64) then some (a + b) else none

unfoldable pub over_cap : Option ℕ → ℕ → Bool
over_cap none vcn = false
over_cap (some most) vcn = ltb most vcn

-- One round of the loop, with the header byte already read at `c.pos`.
unfoldable pub parse_run : List ℕ → Option ℕ → ℕ → Cursor → Result (Run × Cursor)
unfolding checked_add_u64 over_cap
parse_run buf max_clusters header c = do
  let start = c.pos
  let len_size = bit_and header 0x0F
  let off_size = header / 16
  reject (len_size == 0 || ltb 8 len_size || ltb 8 off_size) (bad_run_list start)
  length ← ok_or (read_uint buf (start + 1) len_size) (bad_run_list start)
  (lcn, next) ← read_lcn buf start (start + 1 + len_size) off_size c.prev_lcn
  reject (length == 0) (bad_run_list start)
  vcn ← ok_or (checked_add_u64 c.vcn length) (bad_run_list start)
  reject (over_cap max_clusters vcn) (bad_run_list start)
  ok (
    record { vcn = vcn - length; lcn = lcn; length = length },
    record { pos = start + 1 + len_size + off_size; vcn = vcn; prev_lcn = next },
  )

-- `Some(0) | None => break, Some(&h) => h`
abbrev pub on_header : Option ℕ → List Run → (ℕ → Result (List Run)) → Result (List Run)
on_header none runs more = ok runs
on_header (some zero) runs more = ok runs
on_header (some (suc h)) runs more = more (suc h)

unfoldable pub parse_loop : ℕ → List ℕ → Option ℕ → Cursor → List Run → Result (List Run)
parse_loop zero buf max_clusters c runs = stuck
parse_loop (suc fuel) buf max_clusters c runs = on_header (get_elem? buf c.pos) runs λ header.
    parse_run buf max_clusters header c >>= λ p.
    parse_loop fuel buf max_clusters p.1 (runs ++ (p.0 ∷ []))

abbrev pub start_cursor : Cursor
start_cursor = record { pos = 0; vcn = 0; prev_lcn = ℤ.pos 0 }

-- A round takes at least one byte, so one round more than there are bytes is enough.
unfoldable pub parse : List ℕ → Option ℕ → Result (List Run)
parse buf max_clusters = parse_loop (length_of buf + 1) buf max_clusters start_cursor []

-- The sum wraps as `u64` arithmetic does in a release build.
unfoldable pub cluster_count : List Run → ℕ
cluster_count [] = 0
cluster_count (r ∷ runs) = (r.length + cluster_count runs) % 2 ^ 64

unfoldable pub extents : List Run → List (ℕ × ℕ)
extents [] = []
extents (r ∷ runs) = elim r.lcn [ none ↦ extents runs | some lcn ↦ (lcn, r.length) ∷ extents runs ]
