-- ===== src/Ipc/Requests/Sent.antt =====
-- A request on its way: encoded, framed, read as a frame and decoded.
use batuta.Base.{ℕ, ◌^◌, ◌≤◌, ◌<◌, ◌≡◌, ap, ◌∙◌, arith, subst}
use batuta.Base.{List, [], ◌++◌, length}
use mathlib.Core.List.{append-nil}
use batuta.Ipc.Wire.{Result, ok, max_frame, new_writer, bind}
use batuta.Ipc.Wire.Growing.{
  Grows, Grows-⟫, Grows-weaken, u8-Grows, bool-Grows, u32-Grows, u64-Grows, str-Grows,
  opt_str-Grows, opt_u64-Grows,
}
use batuta.Ipc.Requests.{SearchArgs, Request, search_request, size, bloat, dupes, status, rescan}
use batuta.Ipc.Requests.{
  search_tag, size_tag, bloat_tag, dupes_tag, status_tag, rescan_tag, write_search, write_request,
  encode, decode,
}
use batuta.Ipc.Requests.Carried.{IsRequest, decode-encode}
use batuta.Ipc.Frame.{write_frame, read_frame}
use batuta.Ipc.Frame.Laws.{to_vec, from_slice, write_frame-Framed}

search-Grows : (a : SearchArgs) → Grows max_frame (write_search a)
unfolding write_search
search-Grows a = Grows-weaken (omega arith) (
    Grows-⟫ (u8-Grows search_tag) (
      Grows-⟫ (str-Grows a.query) (
        Grows-⟫ (bool-Grows a.glob) (
          Grows-⟫ (bool-Grows a.case_sensitive) (
            Grows-⟫ (opt_str-Grows a.ext) (
              Grows-⟫ (opt_u64-Grows a.min_size) (
                Grows-⟫ (opt_u64-Grows a.max_size) (
                  Grows-⟫ (opt_str-Grows a.under) (
                    Grows-⟫ (bool-Grows a.dirs_only) (
                      Grows-⟫ (bool-Grows a.files_only) (
                        Grows-⟫ (bool-Grows a.include_excluded) (
                          Grows-⟫ (u8-Grows a.sort)
                            (Grows-⟫ (u32-Grows a.offset) (u32-Grows a.limit))))))))))))))

request-Grows : (q : Request) → Grows max_frame (write_request q)
unfolding write_request
request-Grows (search_request a) = search-Grows a
request-Grows (size path top) =
    Grows-weaken (omega arith)
      (Grows-⟫ (u8-Grows size_tag) (Grows-⟫ (str-Grows path) (u32-Grows top)))
request-Grows (bloat top under) =
    Grows-weaken (omega arith)
      (Grows-⟫ (u8-Grows bloat_tag) (Grows-⟫ (u32-Grows top) (opt_str-Grows under)))
request-Grows (dupes min_size top under) = Grows-weaken (omega arith) (
    Grows-⟫ (u8-Grows dupes_tag)
      (Grows-⟫ (u64-Grows min_size) (Grows-⟫ (u32-Grows top) (opt_str-Grows under))))
request-Grows status = Grows-weaken (omega arith) (u8-Grows status_tag)
request-Grows rescan = Grows-weaken (omega arith) (u8-Grows rescan_tag)

-- No request is too long for a frame: whatever its strings, its encoding has 8 MiB at most.
pub length-encode : (q : Request) → length (encode q) ≤ max_frame
unfolding encode
length-encode q = omega (arith, (request-Grows q).most new_writer)

-- The frame is read, and its payload decoded.
abbrev receive : List ℕ → Result (Request × List ℕ)
receive bytes =
    bind {B = Request × List ℕ} (read_frame from_slice bytes)
      λ (payload, left). bind {B = Request × List ℕ} (decode payload) λ q. ok (q, left)

-- What the other side of a stream gets.
pub record Received (q : Request) (front rest out : List ℕ) : Type 0 where
  pub written : write_frame to_vec (encode q) front ≡ ok (front ++ out)
  pub read : receive (out ++ rest) ≡ ok (q, rest)

-- A request with valid UTF-8 strings of 64 KiB at most and integers that fit their width, encoded and
-- written as a frame to a vector, is not refused, and reading a frame from the bytes it added and
-- decoding it gives the request and leaves the bytes after it.
pub encode-Received :
    (q : Request) (front rest : List ℕ) → IsRequest q → (out : List ℕ) × Received q front rest out
encode-Received q front rest h =
    let (out, framed) = write_frame-Framed (encode q) front rest (length-encode q) in
    let small : length (encode q ++ []) < 2 ^ 64 =
      omega (arith, length-encode q, ap length (append-nil (encode q))) in
    let back : decode (encode q) ≡ ok q =
      subst (λ bytes. decode bytes ≡ ok q) (append-nil (encode q)) (decode-encode q [] h small) in
    (
      out,
      record {
        written = framed.written;
        read =
            ap
              (λ m.
                bind {B = Request × List ℕ} m
                  λ (payload, left). bind {B = Request × List ℕ} (decode payload) λ r. ok (r, left))
              framed.read
            ∙ ap (λ m. bind {B = Request × List ℕ} m λ r. ok (r, rest)) back;
      },
    )
