-- ===== src/Ipc/Requests/Carried.antt =====
-- A request is decoded from its encoding.
use batuta.Base.{ℕ, ◌^◌, ◌<◌, ◌≡◌, refl, arith}
use batuta.Base.{List, ◌++◌, length}
use batuta.Ipc.Wire.{ok}
use batuta.Ipc.Wire.Carrying.{
  Reads-done, Carries, Carries-bind, Carries-then, Carries-weaken, Carries-run, u8-Carries,
  u32-Carries, u64-Carries, bool-Carries,
}
use batuta.Ipc.Wire.Fields.{
  IsStr, IsOptStr, IsOptUint, str-Carries, opt_str-Carries, opt_u64-Carries,
}
use batuta.Ipc.Requests.{SearchArgs, Request, search_request, size, bloat, dupes, status, rescan}
use batuta.Ipc.Requests.{
  search_tag, size_tag, bloat_tag, dupes_tag, status_tag, rescan_tag, write_search, write_request,
  encode, read_search, read_size, read_bloat, read_dupes, read_tagged, read_request, decode,
}

-- Strings that are valid UTF-8 of 64 KiB at most, and integers in their width.
pub record IsSearch (a : SearchArgs) : Type 0 where
  pub query_ok : IsStr a.query
  pub ext_ok : IsOptStr a.ext
  pub min_ok : IsOptUint 64 a.min_size
  pub max_ok : IsOptUint 64 a.max_size
  pub under_ok : IsOptStr a.under
  pub sort_ok : a.sort < 256
  pub offset_ok : a.offset < 2 ^ 32
  pub limit_ok : a.limit < 2 ^ 32

abbrev pub IsRequest : Request → Type 0
IsRequest (search_request a) = IsSearch a
IsRequest (size path top) = IsStr path × (top < 2 ^ 32)
IsRequest (bloat top under) = (top < 2 ^ 32) × IsOptStr under
IsRequest (dupes min_size top under) = (min_size < 2 ^ 64) × (top < 2 ^ 32) × IsOptStr under
IsRequest status = Unit {0}
IsRequest rescan = Unit {0}

search-Carries :
    (a : SearchArgs) → IsSearch a → Carries 1 (write_search a) read_request (search_request a)
unfolding write_search read_search read_tagged read_request
search-Carries a h = Carries-weaken (omega arith) (
    Carries-bind _ (u8-Carries search_tag) (
      Carries-bind _ (str-Carries a.query h.query_ok) (
        Carries-bind _ (bool-Carries a.glob) (
          Carries-bind _ (bool-Carries a.case_sensitive) (
            Carries-bind _ (opt_str-Carries a.ext h.ext_ok) (
              Carries-bind _ (opt_u64-Carries a.min_size h.min_ok) (
                Carries-bind _ (opt_u64-Carries a.max_size h.max_ok) (
                  Carries-bind _ (opt_str-Carries a.under h.under_ok) (
                    Carries-bind _ (bool-Carries a.dirs_only) (
                      Carries-bind _ (bool-Carries a.files_only) (
                        Carries-bind _ (bool-Carries a.include_excluded) (
                          Carries-bind _ (u8-Carries a.sort) (
                            Carries-bind _ (u32-Carries a.offset h.offset_ok) (
                              Carries-then _ (u32-Carries a.limit h.limit_ok)
                                (Reads-done _)))))))))))))))

request-Carries : (q : Request) → IsRequest q → Carries 1 (write_request q) read_request q
unfolding write_request read_request read_tagged read_size read_bloat read_dupes
request-Carries (search_request a) h = search-Carries a h
request-Carries (size path top) h = Carries-weaken (omega arith) (
    Carries-bind _ (u8-Carries size_tag)
      (Carries-bind _ (str-Carries path h.0) (Carries-then _ (u32-Carries top h.1) (Reads-done _))))
request-Carries (bloat top under) h = Carries-weaken (omega arith) (
    Carries-bind _ (u8-Carries bloat_tag) (
      Carries-bind _ (u32-Carries top h.0)
        (Carries-then _ (opt_str-Carries under h.1) (Reads-done _))))
request-Carries (dupes min_size top under) h = Carries-weaken (omega arith) (
    Carries-bind _ (u8-Carries dupes_tag) (
      Carries-bind _ (u64-Carries min_size h.0) (
        Carries-bind _ (u32-Carries top h.1)
          (Carries-then _ (opt_str-Carries under h.2) (Reads-done _)))))
request-Carries status h = Carries-then _ (u8-Carries status_tag) (Reads-done _)
request-Carries rescan h = Carries-then _ (u8-Carries rescan_tag) (Reads-done _)

-- A request with valid UTF-8 strings of 64 KiB at most and integers that fit their width, encoded, is
-- decoded to itself, whatever bytes follow it, while the whole is no longer than an address space of
-- 64 bits allows.
pub decode-encode :
    (q : Request) (rest : List ℕ)
    → IsRequest q
    → length (encode q ++ rest) < 2 ^ 64
    → decode (encode q ++ rest) ≡ ok q
unfolding encode decode
decode-encode q rest h small =
    let (r, e) = Carries-run (request-Carries q h) rest small in rw e refl
