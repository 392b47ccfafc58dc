-- ===== src/Ntfs/Bytes.antt =====
-- crates/batuta-ntfs/src/error.rs: errors, little-endian reads, file references.
-- A byte slice is a list of numbers below 256.
pub mod Laws
pub mod Results
use Prim.Native.String.{String}
use batuta.Base.{ℕ, zero, suc, ◌+◌, ◌-◌, ◌*◌, ◌/◌, ◌%◌, ◌^◌, ◌≤◌, ◌<◌, bit_and}
use batuta.Base.{◌≡◌, Bool, true, false, Option, none, some, List, [], ◌∷◌}
use batuta.Base.{length, get_elem?, take, drop, ltb, leb, if◌then◌else◌}
use batuta.Base.Int.{ℤ, pos, negsuc}
use batuta.Base.Fallible

pub data NtfsError : Type 0 where
  not_ntfs : NtfsError
  bad_boot_sector : String → NtfsError
  not_a_file_record : NtfsError
  bad_fixup : String → NtfsError
  bad_attribute : ℕ → NtfsError
  bad_run_list : ℕ → NtfsError
  truncated : ℕ → ℕ → NtfsError
  io : String → NtfsError

-- `panic` is a slice index out of range; `stuck` is a loop of the model that ran out of fuel.
pub data Result {ℓ} (A : Type ℓ) : Type ℓ where
  ok : A → Result A
  err : NtfsError → Result A
  panic : Result A
  stuck : Result A

infixl 5 ◌>>=◌ ◌>>◌
-- `?`: whatever is not a value ends the function.
abbrev pub ◌>>=◌ {ℓ κ} : {S : Type ℓ} {T : Type κ} → Result S → (S → Result T) → Result T
panic >>= next = panic
stuck >>= next = stuck
err why >>= next = err why
ok value >>= next = next value

abbrev pub ◌>>◌ {ℓ} : {T : Type ℓ} → Result (Unit {0}) → Result T → Result T
check >> rest = check >>= λ _. rest

-- `if bad { return Err(e) }`
abbrev pub reject : Bool → NtfsError → Result (Unit {0})
reject true e = err e
reject false e = ok tt

abbrev pub ok_or {ℓ} : {A : Type ℓ} → Option A → NtfsError → Result A
ok_or (some a) e = ok a
ok_or none e = err e

-- `&buf[..]`, which panics out of range.
abbrev pub or_panic {ℓ} : {A : Type ℓ} → Option A → Result A
or_panic (some a) = ok a
or_panic none = panic

abbrev pub unwrap_or : Option ℕ → ℕ → ℕ
unwrap_or (some a) d = a
unwrap_or none d = d

abbrev pub IsByte : ℕ → Type 0
IsByte b = b < 256

-- `buf.get(off..off + size)`
unfoldable pub slice : List ℕ → ℕ → ℕ → Option (List ℕ)
slice buf off size = if leb (off + size) (length buf) then some (take size (drop off buf)) else none

-- `uN::from_le_bytes`
unfoldable pub from_le_bytes : List ℕ → ℕ
from_le_bytes [] = 0
from_le_bytes (b ∷ bs) = b + 256 * from_le_bytes bs

-- `uN::to_le_bytes` at `n` bytes.
unfoldable pub to_le_bytes : ℕ → ℕ → List ℕ
to_le_bytes zero v = []
to_le_bytes (suc n) v = v % 256 ∷ to_le_bytes n (v / 256)

unfoldable pub u8_at : List ℕ → ℕ → Option ℕ
u8_at buf off = get_elem? buf off

unfoldable pub uint_at : ℕ → List ℕ → ℕ → Option ℕ
uint_at size buf off = Fallible.◌>>=◌ (slice buf off size) (λ bytes. some (from_le_bytes bytes))

unfoldable pub u16_at : List ℕ → ℕ → Option ℕ
unfolding uint_at
u16_at = uint_at 2

unfoldable pub u32_at : List ℕ → ℕ → Option ℕ
unfolding uint_at
u32_at = uint_at 4

unfoldable pub u64_at : List ℕ → ℕ → Option ℕ
unfolding uint_at
u64_at = uint_at 8

-- `b as i8`
unfoldable pub as_i8 : ℕ → ℤ
as_i8 b = if ltb b 128 then pos b else negsuc (255 - b)

unfoldable pub i8_at : List ℕ → ℕ → Option ℤ
unfolding as_i8
i8_at buf off = Fallible.◌>>=◌ (get_elem? buf off) (λ b. some (as_i8 b))

-- A 64-bit file reference: the record number in the low 48 bits, the sequence number above.
unfoldable pub file_ref_record : ℕ → ℕ
file_ref_record reference = bit_and reference 0x0000_FFFF_FFFF_FFFF

unfoldable pub file_ref_sequence : ℕ → ℕ
file_ref_sequence reference = reference / 2 ^ 48 % 2 ^ 16
