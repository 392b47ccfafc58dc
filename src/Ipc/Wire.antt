-- ===== src/Ipc/Wire.antt =====
-- crates/batuta-ipc/src/lib.rs, its primitives: the writer that appends to a buffer, and the reader
-- that moves along one. A string is the list of its UTF-8 bytes.
pub mod Carrying
pub mod Fields
pub mod Answering
pub mod Growing
use Prim.Native.String.{String}
use batuta.Base.{ℕ, zero, suc, ◌+◌, ◌-◌, ◌*◌, ◌^◌, ◌%◌, ◌<◌, ◌≤◌, min}
use batuta.Base.{Bool, true, false, not, Option, none, some, List, [], ◌∷◌, ◌++◌}
use batuta.Base.{length, get_elem?, take, drop, ltb, leb, ◌==◌, if◌then◌else◌}
use batuta.Ntfs.Bytes.{slice, from_le_bytes, to_le_bytes}
use batuta.Core.Names.{is_utf8}

abbrev pub max_frame : ℕ
max_frame = 8 * 1024 * 1024

abbrev pub max_string : ℕ
max_string = 64 * 1024

abbrev pub max_rows : ℕ
max_rows = 1_000_000

pub data IpcError : Type 0 where
  truncated : IpcError
  unknown_tag : ℕ → IpcError
  too_large : String → IpcError
  bad_utf8 : IpcError
  io : String → IpcError

-- `panic` is a slice index out of range, an `unwrap` of an error, or a subtraction below 0.
pub data Result {ℓ} (A : Type ℓ) : Type ℓ where
  ok : A → Result A
  err : IpcError → Result A
  panic : Result A

abbrev pub Str : Type 0
Str = List ℕ

pub record Writer : Type 0 where
  pub buf : List ℕ

-- A method that writes and gives the writer back; methods are chained.
abbrev pub Write : Type 0
Write = Writer → Writer

infixr 5 ◌⟫◌
abbrev pub ◌⟫◌ : Write → Write → Write
(f ⟫ g) w = g (f w)

abbrev pub new_writer : Writer
new_writer = record { buf = [] }

unfoldable pub extend_from_slice : List ℕ → Write
extend_from_slice bytes w = record { buf = w.buf ++ bytes }

unfoldable pub write_u8 : ℕ → Write
unfolding extend_from_slice
write_u8 v = extend_from_slice (v ∷ [])

unfoldable pub write_bool : Bool → Write
unfolding write_u8
write_bool v = write_u8 (if v then 1 else 0)

unfoldable pub write_u32 : ℕ → Write
unfolding extend_from_slice
write_u32 v = extend_from_slice (to_le_bytes 4 v)

unfoldable pub write_u64 : ℕ → Write
unfolding extend_from_slice
write_u64 v = extend_from_slice (to_le_bytes 8 v)

unfoldable pub write_str : Str → Write
unfolding extend_from_slice write_u32
write_str s =
    let n = min (length s) max_string in write_u32 (n % 2 ^ 32) ⟫ extend_from_slice (take n s)

unfoldable pub write_opt_str : Option Str → Write
unfolding write_bool write_str
write_opt_str (some v) = write_bool true ⟫ write_str v
write_opt_str none = write_bool false

unfoldable pub write_opt_u64 : Option ℕ → Write
unfolding write_bool write_u64
write_opt_u64 (some v) = write_bool true ⟫ write_u64 v
write_opt_u64 none = write_bool false

pub record Reader : Type 0 where
  pub buf : List ℕ
  pub pos : ℕ

abbrev pub new_reader : List ℕ → Reader
new_reader buf = record { buf = buf; pos = 0 }

-- A method of the reader: what it gives, and the reader after it. `?` ends the method.
abbrev pub Read {ℓ} : Type ℓ → Type ℓ
Read A = Reader → Result (A × Reader)

abbrev pub bind {ℓ κ} : {A : Type ℓ} {B : Type κ} → Result A → (A → Result B) → Result B
bind panic next = panic
bind (err why) next = err why
bind (ok value) next = next value

infixl 5 ◌>>=◌ ◌>>◌
abbrev pub ◌>>=◌ {ℓ κ} : {A : Type ℓ} {B : Type κ} → Read A → (A → Read B) → Read B
(p >>= next) r = bind (p r) λ (a, r'). next a r'

abbrev pub ◌>>◌ {ℓ} : {B : Type ℓ} → Read (Unit {0}) → Read B → Read B
p >> q = p >>= λ _. q

abbrev pub done {ℓ} : {A : Type ℓ} → A → Read A
done a r = ok (a, r)

abbrev pub fail {ℓ} : {A : Type ℓ} → IpcError → Read A
fail why r = err why

abbrev pub or_fail {ℓ} : {A : Type ℓ} → IpcError → Option A → Read A
or_fail why none = fail why
or_fail why (some a) = done a

abbrev pub or_panic {ℓ} : {A : Type ℓ} → Option A → Read A
or_panic none r = panic
or_panic (some a) r = ok (a, r)

-- `usize::checked_add`
abbrev pub checked_add : ℕ → ℕ → Option ℕ
checked_add a b = if ltb (a + b) (2 ^ 64) then some (a + b) else none

unfoldable pub take_bytes : ℕ → Read (List ℕ)
unfolding slice
take_bytes n r = elim (checked_add r.pos n) [
  | none ↦ err truncated
  | some end ↦ elim (slice r.buf r.pos (end - r.pos)) [
    | none ↦ err truncated
    | some s ↦ ok (s, record { buf = r.buf; pos = end })
  ]
]

-- `try_into().unwrap()` on a slice of the length that is asked for.
unfoldable pub uint_of : ℕ → List ℕ → Read ℕ
unfolding from_le_bytes
uint_of n bytes = if length bytes == n then done (from_le_bytes bytes) else λ r. panic

unfoldable pub read_u8 : Read ℕ
unfolding take_bytes
read_u8 = do bytes ← take_bytes 1; or_panic (get_elem? bytes 0)

unfoldable pub read_bool : Read Bool
unfolding read_u8
read_bool = do v ← read_u8; done (not (v == 0))

unfoldable pub read_u32 : Read ℕ
unfolding take_bytes uint_of
read_u32 = take_bytes 4 >>= uint_of 4

unfoldable pub read_u64 : Read ℕ
unfolding take_bytes uint_of
read_u64 = take_bytes 8 >>= uint_of 8

unfoldable pub from_utf8 : List ℕ → Read Str
unfolding is_utf8
from_utf8 bytes = if is_utf8 bytes then done bytes else fail bad_utf8

unfoldable pub read_str : Read Str
unfolding read_u32 take_bytes from_utf8
read_str = do
  n ← read_u32
  if ltb max_string n then fail (too_large "string") else (do bytes ← take_bytes n; from_utf8 bytes)

unfoldable pub read_opt_str : Read (Option Str)
unfolding read_bool read_str
read_opt_str = do b ← read_bool; if b then (do s ← read_str; done (some s)) else done none

unfoldable pub read_opt_u64 : Read (Option ℕ)
unfolding read_bool read_u64
read_opt_u64 = do b ← read_bool; if b then (do v ← read_u64; done (some v)) else done none

-- `self.buf.len() - self.pos`
abbrev pub remaining : Read ℕ
remaining r = if ltb (length r.buf) r.pos then panic else ok (length r.buf - r.pos, r)

-- `usize::saturating_mul`
abbrev pub saturating_mul : ℕ → ℕ → ℕ
saturating_mul a b = min (a * b) (2 ^ 64 - 1)

unfoldable pub read_count : ℕ → String → Read ℕ
unfolding read_u32
read_count min_bytes_each what = do
  n ← read_u32
  if ltb max_rows n then fail (too_large what) else (do
    left ← remaining
    if ltb left (saturating_mul n min_bytes_each) then fail truncated else done n)

-- `for x in xs { write(x) }`
unfoldable pub write_each : {A : Type 0} → (A → Write) → List A → Write
write_each write [] w = w
write_each write (x ∷ xs) w = write_each write xs (write x w)

-- `for _ in 0..n { xs.push(read()?) }`
unfoldable pub read_each : {A : Type 0} → Read A → ℕ → Read (List A)
read_each read zero = done []
read_each read (suc n) = do x ← read; xs ← read_each read n; done (x ∷ xs)
