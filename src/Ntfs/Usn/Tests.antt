-- ===== src/Ntfs/Usn/Tests.antt =====
-- A buffer with one record of another version and one of version 2, and the theorem at it.
use batuta.Base.{ℕ, ◌≡◌, refl, none, some, List, [], ◌∷◌, ◌++◌, replicate}
use batuta.Base.Fallible.{Returns}
use batuta.Base.Int.{as_i64}
use batuta.Ntfs.Bytes.{slice, from_le_bytes, u16_at, u32_at, u64_at, uint_at}
use batuta.Ntfs.Usn.{UsnRecords, Next, read_record, next, next_loop}
use batuta.Ntfs.Usn.Reading.{Read, next-Read}

-- The length, the version and the rest of a record of 64 bytes; the name is two bytes at 0x3C.
abbrev entry : ℕ → List ℕ
entry version =
    64 ∷ 0 ∷ 0 ∷ 0 ∷ version ∷ 0 ∷ 0 ∷ 0 ∷ 7 ∷ replicate 7 0
    ++ (5 ∷ replicate 7 0)
    ++ (9 ∷ replicate 7 0)
    ++ replicate 8 0
    ++ (2 ∷ replicate 11 0)
    ++ (32 ∷ replicate 3 0)
    ++ (2 ∷ 0 ∷ 60 ∷ 0 ∷ 65 ∷ 0 ∷ 0 ∷ 0 ∷ [])

abbrev start : UsnRecords
start = record { buf = replicate 8 0 ++ entry 3 ++ entry 2; pos = 8 }

abbrev reason_of : Next → ℕ
reason_of none = 0
reason_of (some (none, it)) = 0
reason_of (some (some r, it)) = r.reason

-- The version 3 record is skipped.
extended : reason_of (next start) ≡ 2
unfolding next next_loop read_record slice u16_at u32_at u64_at uint_at from_le_bytes as_i64
extended = refl

next-Read_example : Returns (Read start) (next start)
next-Read_example = next-Read start
