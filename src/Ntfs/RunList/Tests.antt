-- ===== src/Ntfs/RunList/Tests.antt =====
-- Runs of the parser on the inputs of the source's own tests, and the theorems at concrete inputs.
use batuta.Base.{ℕ, ◌≡◌, ◌<◌, ◌⊎◌, refl, some, none, false, arith, List, [], ◌∷◌, ◌++◌}
use batuta.Ntfs.Bytes.{ok, err, bad_run_list}
use batuta.Ntfs.RunList.{
  Run, over_cap, cluster_count, parse, parse_loop, parse_run, read_lcn, read_int, read_uint,
  or_bytes, sign_extend,
}
use batuta.Ntfs.RunList.Decode.{Covers, parse_sound}
use batuta.Ntfs.RunList.Total.{parse_total}
use batuta.Ntfs.RunList.Encode.{Entry, encode, runs_of}
use batuta.Ntfs.RunList.RoundTrip.{parse-encode}
use batuta.Base.Int.{checked_add_i64}
use batuta.Ntfs.Bytes.{slice}

abbrev backwards_bytes : List ℕ
backwards_bytes = 0x21 ∷ 0x10 ∷ 0x00 ∷ 0x01 ∷ 0x11 ∷ 0x08 ∷ 0xF0 ∷ 0x00 ∷ []

abbrev backwards_runs : List Run
backwards_runs =
    record { vcn = 0; lcn = some 0x100; length = 0x10 }
    ∷ record { vcn = 0x10; lcn = some 0xF0; length = 8 }
    ∷ []

backwards : parse backwards_bytes none ≡ ok backwards_runs
unfolding parse parse_loop parse_run read_lcn read_int read_uint or_bytes sign_extend
    checked_add_i64 slice
backwards = refl

capped : parse (0x21 ∷ 0xFF ∷ 0xFF ∷ 0x00 ∷ 0x00 ∷ []) (some 100) ≡ err (bad_run_list 0)
unfolding parse parse_loop parse_run read_lcn read_int read_uint or_bytes sign_extend
    checked_add_i64 slice
capped = refl

parse_sound_example :
    Covers 0 backwards_runs (cluster_count backwards_runs)
    × (over_cap none (cluster_count backwards_runs) ≡ false)
parse_sound_example = parse_sound backwards_bytes none backwards_runs backwards

parse_total_example :
    ((runs : List Run) × (parse (0x21 ∷ 0x18 ∷ []) none ≡ ok runs))
    ⊎ ((start : ℕ) × (start < 2) × (parse (0x21 ∷ 0x18 ∷ []) none ≡ err (bad_run_list start)))
parse_total_example = parse_total (0x21 ∷ 0x18 ∷ []) none

abbrev two_entries : List Entry
two_entries =
    record { len_size = 1; off_size = 2; run = record { vcn = 0; lcn = some 0x100; length = 0x10 } }
    ∷ record { len_size = 1; off_size = 0; run = record { vcn = 0x10; lcn = none; length = 0x20 } }
    ∷ record {
      len_size = 2;
      off_size = 1;
      run = record { vcn = 0x30; lcn = some 0xF0; length = 8 };
    }
    ∷ []

parse-encode_example :
    parse (encode 0 two_entries ++ (0 ∷ 0xFF ∷ [])) (some 100) ≡ ok (runs_of two_entries)
unfolding over_cap
parse-encode_example =
    parse-encode two_entries (0xFF ∷ []) (some 100) 0x38 (omega arith) (omega arith) (omega arith)
      refl
