-- ===== src/Ipc/Tests.antt =====
-- Runs of the codec and of the frames, and the messages at which the theorems are applied.
use batuta.Base.{
  ℕ, ◌≤◌, ◌≡◌, refl, arith, true, false, none, some, List, [], ◌∷◌, ◌++◌, length, All,
}
use batuta.Ntfs.Bytes.{IsByte, to_le_bytes, from_le_bytes}
use batuta.Core.Names.{is_utf8}
use batuta.Ipc.Wire.{
  ok, err, unknown_tag, truncated, too_large, bad_utf8, Str, max_frame, read_count, new_reader,
}
use batuta.Ipc.Wire.Answering.{Decoded, Counts, count-Counts}
use batuta.Ipc.Requests as Ask
use batuta.Ipc.Requests.{Request, SearchArgs, search_request, size, bloat}
use batuta.Ipc.Requests.Carried.{IsRequest, decode-encode}
use batuta.Ipc.Requests.Answered.{decode-Decoded}
use batuta.Ipc.Requests.Sent.{Received, encode-Received, length-encode}
use batuta.Ipc.Responses as Answer
use batuta.Ipc.Responses.{Response, Row, rows}
use batuta.Ipc.Responses.Carried.{IsRow, IsResponse, decode-encode_response}
use batuta.Ipc.Responses.Answered.{decode-Decoded-IsResponse}
use batuta.Ipc.Frame.{read_frame}
use batuta.Ipc.Frame.Laws.{Framed, from_slice, write_frame-Framed, read_frame-max}

-- "é.rs", with a two-byte character.
abbrev accented : Str
accented = 0xC3 ∷ 0xA9 ∷ 0x2E ∷ 0x72 ∷ 0x73 ∷ []

abbrev asked : SearchArgs
asked = record {
  query = accented;
  glob = true;
  case_sensitive = false;
  ext = some (0x72 ∷ 0x73 ∷ []);
  min_size = some 1024;
  max_size = none;
  under = none;
  dirs_only = false;
  files_only = true;
  include_excluded = false;
  sort = 1;
  offset = 40;
  limit = 50;
}

asked-IsRequest : IsRequest (search_request asked)
unfolding is_utf8
asked-IsRequest = record {
  query_ok = record { short = omega arith; valid = refl };
  ext_ok = record { short = omega arith; valid = refl };
  min_ok = omega arith;
  max_ok = tt;
  under_ok = tt;
  sort_ok = omega arith;
  offset_ok = omega arith;
  limit_ok = omega arith;
}

asked-decode : Ask.decode (Ask.encode (search_request asked)) ≡ ok (search_request asked)
unfolding Ask.encode Ask.decode to_le_bytes
asked-decode = refl

decode_empty : Ask.decode [] ≡ err truncated
unfolding Ask.decode
decode_empty = refl

decode_unknown : Ask.decode (0xFF ∷ 0xFF ∷ []) ≡ err (unknown_tag 0xFF)
unfolding Ask.decode
decode_unknown = refl

-- A string that declares 256 MiB.
decode_long : Ask.decode (2 ∷ 0 ∷ 0 ∷ 0 ∷ 16 ∷ []) ≡ err (too_large "string")
unfolding Ask.decode
decode_long = refl

-- The two bytes of a character, cut after the first.
decode_cut : Ask.decode (2 ∷ 1 ∷ 0 ∷ 0 ∷ 0 ∷ 0xC3 ∷ 0 ∷ 0 ∷ 0 ∷ 0 ∷ []) ≡ err bad_utf8
unfolding Ask.decode
decode_cut = refl

abbrev found : Row
found = record {
  path = accented;
  size = 4096;
  mtime = 1_700_000_000;
  is_dir = false;
  files = 0;
  own = 0;
}

abbrev two_rows : Response
two_rows = rows (found ∷ found ∷ []) 2 351

found-IsRow : IsRow found
unfolding is_utf8
found-IsRow = record {
  path_ok = record { short = omega arith; valid = refl };
  size_ok = omega arith;
  mtime_ok = omega arith;
  files_ok = omega arith;
  own_ok = omega arith;
}

two_rows-IsResponse : IsResponse two_rows
two_rows-IsResponse = (
  record { few = omega arith; each = (found-IsRow, (found-IsRow, tt)) },
  omega arith,
  omega arith,
)

-- A count of rows that the bytes cannot hold.
decode_unbacked :
    Answer.decode
      (20 ∷ 0 ∷ 0 ∷ 0 ∷ 0 ∷ 0 ∷ 0 ∷ 0 ∷ 0 ∷ 0 ∷ 0 ∷ 0 ∷ 0 ∷ 0 ∷ 0 ∷ 0 ∷ 0 ∷ 64 ∷ 66 ∷ 15 ∷ 0 ∷ [])
    ≡ err truncated
unfolding Answer.decode
decode_unbacked = refl

decode-encode_example :
    Ask.decode (Ask.encode (search_request asked) ++ 7 ∷ []) ≡ ok (search_request asked)
decode-encode_example =
    decode-encode (search_request asked) (7 ∷ []) asked-IsRequest
      (unfold Ask.encode to_le_bytes in omega arith)

decode-encode_response_example : Answer.decode (Answer.encode two_rows ++ 7 ∷ []) ≡ ok two_rows
decode-encode_response_example =
    decode-encode_response two_rows (7 ∷ []) two_rows-IsResponse
      (unfold Answer.encode to_le_bytes in omega arith)

abbrev noise : List ℕ
noise = 1 ∷ 0xFF ∷ 0xFF ∷ 0xFF ∷ 0xFF ∷ 9 ∷ []

noise-IsByte : All IsByte noise
noise-IsByte =
    (omega arith, (omega arith, (omega arith, (omega arith, (omega arith, (omega arith, tt))))))

decode-Decoded_example : Decoded IsRequest (Ask.decode noise)
decode-Decoded_example = decode-Decoded noise noise-IsByte

decode-Decoded-IsResponse_example : Decoded IsResponse (Answer.decode noise)
decode-Decoded-IsResponse_example = decode-Decoded-IsResponse noise noise-IsByte

count-Counts_example : Counts 29 (read_count 29 "rows" (new_reader noise))
count-Counts_example =
    count-Counts 29 "rows" (new_reader noise) (omega arith)
      (record { inside = omega arith; bytes = noise-IsByte })

length-encode_example : length (Ask.encode (search_request asked)) ≤ max_frame
length-encode_example = length-encode (search_request asked)

encode-Received_example : (out : List ℕ) × Received (search_request asked) noise noise out
encode-Received_example = encode-Received (search_request asked) noise noise asked-IsRequest

write_frame-Framed_example : (out : List ℕ) × Framed noise [] (5 ∷ []) out
write_frame-Framed_example = write_frame-Framed noise [] (5 ∷ []) (omega arith)

read_frame-max_example :
    (length {A = ℕ} (8 ∷ 9 ∷ []) ≤ max_frame)
    × ((len : List ℕ) × (r1 : List ℕ) × (from_slice.read_exact 4 (2 ∷ 0 ∷ 0 ∷ 0 ∷ 8 ∷ 9 ∷ 5 ∷ [])
          ≡ ok (len, r1))
        × (from_le_bytes len ≡ 2))
read_frame-max_example =
    read_frame-max from_slice (2 ∷ 0 ∷ 0 ∷ 0 ∷ 8 ∷ 9 ∷ 5 ∷ []) (5 ∷ []) (8 ∷ 9 ∷ [])
      (unfold read_frame in refl)
