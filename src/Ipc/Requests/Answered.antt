-- ===== src/Ipc/Requests/Answered.antt =====
-- Decoding a request answers on any bytes.
use batuta.Base.{ℕ, List, ◌==◌, All}
use batuta.Ntfs.Bytes.{IsByte}
use batuta.Ipc.Wire.{unknown_tag}
use batuta.Ipc.Wire.Answering.{
  Answers, Answers-bind, Answers-done, Answers-fail, Answers-if, Decoded, Decoded-run, u8-Answers,
  bool-Answers, u32-Answers, u64-Answers, read_str-Answers, read_opt_str-Answers, opt_u64-Answers,
}
use batuta.Ipc.Requests.{size, bloat, dupes, status, rescan}
use batuta.Ipc.Requests.{
  search_tag, size_tag, bloat_tag, dupes_tag, status_tag, rescan_tag, read_search, read_size,
  read_bloat, read_dupes, read_tagged, read_request, decode,
}
use batuta.Ipc.Requests.Carried.{IsRequest}

search-Answers : Answers IsRequest read_search
unfolding read_search
search-Answers = Answers-bind _ _ read_str-Answers λ query hquery.
    Answers-bind _ _ bool-Answers λ glob _. Answers-bind _ _ bool-Answers λ case_sensitive _.
      Answers-bind _ _ read_opt_str-Answers λ ext hext.
        Answers-bind _ _ opt_u64-Answers λ min_size hmin.
          Answers-bind _ _ opt_u64-Answers λ max_size hmax.
            Answers-bind _ _ read_opt_str-Answers λ under hunder.
              Answers-bind _ _ bool-Answers λ dirs_only _.
                Answers-bind _ _ bool-Answers λ files_only _.
                  Answers-bind _ _ bool-Answers λ include_excluded _.
                    Answers-bind _ _ u8-Answers λ sort hsort.
                      Answers-bind _ _ u32-Answers λ offset hoffset.
                        Answers-bind _ _ u32-Answers λ limit hlimit. Answers-done _ (record {
                          query_ok = hquery;
                          ext_ok = hext;
                          min_ok = hmin;
                          max_ok = hmax;
                          under_ok = hunder;
                          sort_ok = hsort;
                          offset_ok = hoffset;
                          limit_ok = hlimit;
                        })

size-Answers : Answers IsRequest read_size
unfolding read_size
size-Answers = Answers-bind _ _ read_str-Answers λ path hpath.
    Answers-bind _ _ u32-Answers λ top htop. Answers-done (size path top) (hpath, htop)

bloat-Answers : Answers IsRequest read_bloat
unfolding read_bloat
bloat-Answers = Answers-bind _ _ u32-Answers λ top htop.
    Answers-bind _ _ read_opt_str-Answers
      λ under hunder. Answers-done (bloat top under) (htop, hunder)

dupes-Answers : Answers IsRequest read_dupes
unfolding read_dupes
dupes-Answers = Answers-bind _ _ u64-Answers λ min_size hmin.
    Answers-bind _ _ u32-Answers λ top htop.
      Answers-bind _ _ read_opt_str-Answers
        λ under hunder. Answers-done (dupes min_size top under) (hmin, htop, hunder)

tagged-Answers : (t : ℕ) → Answers IsRequest (read_tagged t)
unfolding read_tagged
tagged-Answers t =
    Answers-if (t == search_tag) _ _ (λ _. search-Answers)
      λ _.
        Answers-if (t == size_tag) _ _ (λ _. size-Answers)
          λ _.
            Answers-if (t == bloat_tag) _ _ (λ _. bloat-Answers)
              λ _.
                Answers-if (t == dupes_tag) _ _ (λ _. dupes-Answers)
                  λ _.
                    Answers-if (t == status_tag) _ _ (λ _. Answers-done status tt)
                      λ _.
                        Answers-if (t == rescan_tag) _ _ (λ _. Answers-done rescan tt)
                          λ _. Answers-fail (unknown_tag t) tt

-- On any bytes, decoding a request gives one whose strings are valid UTF-8 of 64 KiB at most and whose
-- integers fit their width, or an error that is not one of input or output; it never panics.
pub decode-Decoded : (buf : List ℕ) → All IsByte buf → Decoded IsRequest (decode buf)
unfolding decode read_request
decode-Decoded buf bytes =
    Decoded-run read_request buf (Answers-bind _ _ u8-Answers λ t _. tagged-Answers t) bytes
