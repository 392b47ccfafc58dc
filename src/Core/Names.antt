-- ===== src/Core/Names.antt =====
-- crates/batuta-core/src/names.rs: the arena of names. A name is the list of its UTF-8 bytes.
pub mod Laws
use batuta.Base.{ℕ, zero, suc, ◌+◌, ◌%◌, ◌^◌, min, Bool, true, false, ◌&&◌}
use batuta.Base.{Option, none, some, List, [], ◌∷◌, ◌++◌}
use batuta.Base.{length, take, drop, ltb, leb, if◌then◌else◌}

abbrev pub u16_max : ℕ
u16_max = 65535

-- The bytes of a name that are kept, and the offset and the length that are returned.
pub record Pushed : Type 0 where
  pub buf : List ℕ
  pub off : ℕ
  pub len : ℕ

-- `bytes.len().min(u16::MAX as usize)`
unfoldable pub kept : List ℕ → List ℕ
kept name = take (min (length name) u16_max) name

unfoldable pub push : List ℕ → List ℕ → Pushed
unfolding kept
push buf name = record {
  buf = buf ++ kept name;
  off = length buf % 2 ^ 32;
  len = min (length name) u16_max % 2 ^ 16;
}

-- `buf.get(a..b)` as an option, for the arena here and for that of the renamed names.
unfoldable pub range : List ℕ → ℕ → ℕ → Option (List ℕ)
range buf off len = if leb (off + len) (length buf) then some (take len (drop off buf)) else none

abbrev pub or_empty : Option (List ℕ) → List ℕ
or_empty none = []
or_empty (some s) = s

unfoldable pub bytes : List ℕ → ℕ → ℕ → List ℕ
unfolding range
bytes buf off len = or_empty (range buf off len)

-- What may follow the first byte of a character: how many bytes, and the range of the next.
abbrev pub utf8_head : ℕ → Option (ℕ × ℕ × ℕ)
utf8_head b =
    if ltb b 0x80
    then some (0, 0, 0)
    else if ltb b 0xC2
    then none
    else if leb b 0xDF
    then some (1, 0x80, 0xBF)
    else if leb b 0xE0
    then some (2, 0xA0, 0xBF)
    else if leb b 0xEC
    then some (2, 0x80, 0xBF)
    else if leb b 0xED
    then some (2, 0x80, 0x9F)
    else if leb b 0xEF
    then some (2, 0x80, 0xBF)
    else if leb b 0xF0
    then some (3, 0x90, 0xBF)
    else if leb b 0xF3
    then some (3, 0x80, 0xBF)
    else if leb b 0xF4
    then some (3, 0x80, 0x8F)
    else none

-- `std::str::from_utf8(..).is_ok()`, with `need` bytes of a character to come.
unfoldable pub utf8_run : ℕ → ℕ → ℕ → List ℕ → Bool
utf8_run zero lo hi [] = true
utf8_run (suc need) lo hi [] = false
utf8_run zero lo hi (b ∷ rest) = elim (utf8_head b) [
  | none ↦ false
  | some (need, lo', hi') ↦ utf8_run need lo' hi' rest
]
utf8_run (suc need) lo hi (b ∷ rest) = leb lo b && leb b hi && utf8_run need 0x80 0xBF rest

unfoldable pub is_utf8 : List ℕ → Bool
unfolding utf8_run
is_utf8 name = utf8_run 0 0 0 name

-- `get`: out of range or not valid UTF-8 reads as the empty name.
unfoldable pub get : List ℕ → ℕ → ℕ → List ℕ
unfolding bytes
get buf off len = let s = bytes buf off len in if is_utf8 s then s else []
