-- ===== src/Ipc/Wire/Growing.antt =====
-- The most that a method of the writer appends.
use batuta.Base.{
  ℕ, ◌+◌, ◌%◌, ◌^◌, ◌≤◌, arith, min, Bool, true, false, Option, none, some, List, [], ◌∷◌,
}
use batuta.Base.{length, length-append, length-take}
use batuta.Ntfs.Bytes.Laws.{length-to_le_bytes}
use batuta.Ipc.Wire.{
  Writer, Write, ◌⟫◌, Str, max_string, extend_from_slice, write_u8, write_bool, write_u32,
  write_u64, write_str, write_opt_str, write_opt_u64,
}

pub record Grows (n : ℕ) (f : Write) : Type 0 where
  pub most : (w : Writer) → length (f w).buf ≤ length w.buf + n

pub Grows-⟫ : {m n : ℕ} {f g : Write} → Grows m f → Grows n g → Grows (m + n) (f ⟫ g)
Grows-⟫ {f} h k = record { most = λ w. omega (arith, h.most w, k.most (f w)) }

pub Grows-weaken : {m n : ℕ} {f : Write} → m ≤ n → Grows m f → Grows n f
Grows-weaken le h = record { most = λ w. omega (arith, le, h.most w) }

extend-Grows : (n : ℕ) (bytes : List ℕ) → length bytes ≤ n → Grows n (extend_from_slice bytes)
unfolding extend_from_slice
extend-Grows n bytes h = record { most = λ w. omega (arith, h, length-append w.buf bytes) }

pub u8-Grows : (v : ℕ) → Grows 1 (write_u8 v)
unfolding write_u8
u8-Grows v = extend-Grows 1 (v ∷ []) (omega arith)

pub bool-Grows : (v : Bool) → Grows 1 (write_bool v)
unfolding write_bool
bool-Grows v = u8-Grows _

pub u32-Grows : (v : ℕ) → Grows 4 (write_u32 v)
unfolding write_u32
u32-Grows v = extend-Grows 4 _ (omega (arith, length-to_le_bytes 4 v))

pub u64-Grows : (v : ℕ) → Grows 8 (write_u64 v)
unfolding write_u64
u64-Grows v = extend-Grows 8 _ (omega (arith, length-to_le_bytes 8 v))

pub str-Grows : (s : Str) → Grows (4 + max_string) (write_str s)
unfolding write_str
str-Grows s =
    Grows-⟫ (u32-Grows (min (length s) max_string % 2 ^ 32))
      (extend-Grows max_string _ (omega (arith, length-take (min (length s) max_string) s)))

pub opt_str-Grows : (s : Option Str) → Grows (5 + max_string) (write_opt_str s)
unfolding write_opt_str
opt_str-Grows none = Grows-weaken (omega arith) (bool-Grows false)
opt_str-Grows (some s) = Grows-weaken (omega arith) (Grows-⟫ (bool-Grows true) (str-Grows s))

pub opt_u64-Grows : (v : Option ℕ) → Grows 9 (write_opt_u64 v)
unfolding write_opt_u64
opt_u64-Grows none = Grows-weaken (omega arith) (bool-Grows false)
opt_u64-Grows (some v) = Grows-⟫ (bool-Grows true) (u64-Grows v)
