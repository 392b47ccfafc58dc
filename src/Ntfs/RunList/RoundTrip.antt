-- ===== src/Ntfs/RunList/RoundTrip.antt =====
-- Decoding what the encoder of data runs writes.
use batuta.Base.{ℕ, zero, suc, ◌+◌, ◌*◌, ◌^◌, ◌≤◌, ◌<◌, ◌≡◌, refl, sym, ap, subst, ◌∙◌, arith}
use mathlib.Core.Path.{subst₂}
use batuta.Base.{Option, none, some, List, [], ◌∷◌, ◌++◌, false}
use batuta.Base.{length as length_of, get_elem?, length-append, get_elem?-append_length}
use batuta.Base.Int.{pos}
use batuta.Ntfs.Bytes.{ok, from_le_bytes, to_le_bytes, Result}
use batuta.Ntfs.Bytes.Laws.{to_le_bytes-IsByte, length-to_le_bytes, from_le_bytes-to_le_bytes}
use batuta.Ntfs.RunList.{Run, Cursor, read_uint, read_lcn, parse_run, parse_loop, parse, on_header}
use batuta.Ntfs.RunList.{over_cap}
use batuta.Ntfs.RunList.Decode.{LcnFits, Covers, Covers-le}
use mathlib.Core.List.{append_assoc, append-nil}
use batuta.Ntfs.RunList.Encode.{Entry, EntryFits, AllFit, OffsetFits, next_prev, runs_of}
use batuta.Ntfs.RunList.Encode.{
  offset_bytes, encode_entry, encode, read_uint-append, read_lcn-append, round,
}

length-offset_bytes :
    (prev size : ℕ) (lcn : Option ℕ)
    → OffsetFits prev size lcn
    → length_of (offset_bytes prev size lcn) ≡ size
unfolding offset_bytes
length-offset_bytes prev size none h = omega arith
length-offset_bytes prev size (some lcn) h = length-to_le_bytes size _

on_header-some :
    (h : ℕ) (runs : List Run) (more : ℕ → Result (List Run))
    → 0 < h
    → on_header (some h) runs more ≡ more h
on_header-some zero runs more p = absurd (omega arith)
on_header-some (suc n) runs more p = refl

over_cap_le :
    (most : Option ℕ) (v w : ℕ) → v ≤ w → over_cap most w ≡ false → over_cap most v ≡ false
unfolding over_cap
over_cap_le none v w h e = refl
over_cap_le (some n) v w h e = ground arith

-- The length field and the offset field read back from a buffer that holds the entry at `front`.
module _ (front back : List ℕ) (prev : ℕ) (e : Entry) (fits : EntryFits prev e) where
  abbrev head : List ℕ
  head = front ++ ((e.off_size * 16 + e.len_size) ∷ [])

  abbrev len_bytes : List ℕ
  len_bytes = to_le_bytes e.len_size e.run.length

  abbrev off_bytes : List ℕ
  off_bytes = offset_bytes prev e.off_size e.run.lcn

  abbrev whole : List ℕ
  whole = front ++ (encode_entry prev e ++ back)

  whole-head : whole ≡ head ++ (len_bytes ++ (off_bytes ++ back))
  unfolding encode_entry
  whole-head = simp append_assoc

  whole-len : whole ≡ (head ++ len_bytes) ++ (off_bytes ++ back)
  whole-len = whole-head ∙ sym (append_assoc head len_bytes (off_bytes ++ back))

  whole-off : whole ≡ ((head ++ len_bytes) ++ off_bytes) ++ back
  whole-off = whole-len ∙ sym (append_assoc (head ++ len_bytes) off_bytes back)

  length-head : length_of head ≡ length_of front + 1
  length-head = omega (arith, length-append front ((e.off_size * 16 + e.len_size) ∷ []))

  length-len : length_of (head ++ len_bytes) ≡ length_of front + 1 + e.len_size
  length-len =
      omega (
        arith,
        length-append head len_bytes,
        length-head,
        length-to_le_bytes e.len_size e.run.length,
      )

  length-off :
      length_of ((head ++ len_bytes) ++ off_bytes) ≡ length_of front + 1 + e.len_size + e.off_size
  length-off = omega (
    arith,
    length-append (head ++ len_bytes) off_bytes,
    length-len,
    length-offset_bytes prev e.off_size e.run.lcn fits.3,
  )

  len_read : read_uint whole (length_of front + 1) e.len_size ≡ some e.run.length
  len_read = rw whole-head (
      subst₂
        (λ (p n : ℕ).
          read_uint (head ++ (len_bytes ++ (off_bytes ++ back))) p n
          ≡ some (from_le_bytes len_bytes))
        length-head (length-to_le_bytes e.len_size e.run.length)
        (read_uint-append head len_bytes (off_bytes ++ back)
          (to_le_bytes-IsByte e.len_size e.run.length))
      ∙ ap some (from_le_bytes-to_le_bytes e.len_size e.run.length fits.2))

  lcn_read :
      LcnFits e.run.lcn
      → read_lcn whole (length_of front) (length_of front + 1 + e.len_size) e.off_size (pos prev)
        ≡ ok (e.run.lcn, pos (next_prev prev e.run.lcn))
  lcn_read h = rw whole-len (
      subst
        (λ (p : ℕ).
          read_lcn ((head ++ len_bytes) ++ (off_bytes ++ back)) (length_of front) p e.off_size
            (pos prev)
          ≡ ok (e.run.lcn, pos (next_prev prev e.run.lcn)))
        length-len
        (read_lcn-append (head ++ len_bytes) back (length_of front) prev e.off_size e.run.lcn h
          fits.3))

  header_read : get_elem? whole (length_of front) ≡ some (e.off_size * 16 + e.len_size)
  unfolding encode_entry
  header_read = get_elem?-append_length front _ _

loop_step :
    (fuel header : ℕ) (buf : List ℕ) (most : Option ℕ) (c c' : Cursor) (r : Run) (runs : List Run)
    → 0 < header
    → get_elem? buf c.pos ≡ some header
    → parse_run buf most header c ≡ ok (r, c')
    → parse_loop (suc fuel) buf most c runs ≡ parse_loop fuel buf most c' (runs ++ (r ∷ []))
unfolding parse_loop
loop_step fuel header buf most c c' r runs h read run =
    rw (read, on_header) (on_header-some header runs _ h ∙ rw run)

-- The loop from a buffer of which `front` is behind it. The buffer and the position are variables
-- with equations, so that the recursion can move the split.
parse_loop-encode :
    (es : List Entry) (fuel start : ℕ) (front rest buf : List ℕ) (most : Option ℕ) (vcn prev w : ℕ)
    (runs : List Run)
    → buf ≡ front ++ (encode prev es ++ (0 ∷ rest))
    → start ≡ length_of front
    → AllFit prev es
    → Covers vcn (runs_of es) w
    → w < 2 ^ 64
    → over_cap most w ≡ false
    → length_of es < fuel
    → parse_loop fuel buf most (record { pos = start; vcn = vcn; prev_lcn = pos prev }) runs
      ≡ ok (runs ++ runs_of es)
parse_loop-encode es zero start front rest buf most vcn prev w runs b at fits covers small under f =
    absurd (omega arith)
parse_loop-encode [] (suc fuel) start front rest buf most vcn prev w runs b at fits covers small
      under f =
    unfold parse_loop encode in
    rw (b, at, get_elem?-append_length front 0 rest) (ap ok (sym (append-nil runs)))
parse_loop-encode (e ∷ es) (suc fuel) start front rest buf most vcn prev w runs b at fits covers
      small under f =
    let back : List ℕ = encode (next_prev prev e.run.lcn) es ++ (0 ∷ rest) in
    let split : buf ≡ whole front back prev e fits.0 =
      b ∙ ap (◌++◌ front) (unfold encode in append_assoc (encode_entry prev e) _ (0 ∷ rest)) in
    let fits_one : vcn + e.run.length ≤ w =
      Covers-le (runs_of es) (vcn + e.run.length) w covers.3 in
    let run =
      round buf most start vcn prev e fits.0 covers.0 covers.1 (omega arith)
        (over_cap_le most (vcn + e.run.length) w fits_one under)
        (rw (split, at) (len_read front back prev e fits.0))
        (rw (split, at) (lcn_read front back prev e fits.0 covers.2)) in
    loop_step fuel (e.off_size * 16 + e.len_size) buf most _ _ e.run runs (omega arith)
      (rw (split, at) (header_read front back prev e fits.0)) run
    ∙ parse_loop-encode es fuel (start + 1 + e.len_size + e.off_size) _ rest buf most
        (vcn + e.run.length) (next_prev prev e.run.lcn) w (runs ++ (e.run ∷ []))
        (split ∙ whole-off front back prev e fits.0)
        (omega (arith, length-off front back prev e fits.0)) fits.1 covers.3 small under
        (omega arith)
    ∙ ap ok (append_assoc runs (e.run ∷ []) (runs_of es))

length-encode : (prev : ℕ) (es : List Entry) → length_of es ≤ length_of (encode prev es)
unfolding encode
length-encode prev [] = omega arith
length-encode prev (e ∷ es) = omega (
  arith,
  length-append (encode_entry prev e) (encode (next_prev prev e.run.lcn) es),
  length-encode (next_prev prev e.run.lcn) es,
)

-- `parse` reads back any runs that cover the clusters from 0 on below 2 ^ 64 and within the cap,
-- written at any widths that hold their lengths and their offsets, and ignores what follows the
-- terminator.
pub parse-encode :
    (es : List Entry) (rest : List ℕ) (max_clusters : Option ℕ) (w : ℕ)
    → AllFit 0 es
    → Covers 0 (runs_of es) w
    → w < 2 ^ 64
    → over_cap max_clusters w ≡ false
    → parse (encode 0 es ++ (0 ∷ rest)) max_clusters ≡ ok (runs_of es)
unfolding parse
parse-encode es rest most w fits covers small under =
    parse_loop-encode es _ 0 [] rest _ most 0 0 w [] refl refl fits covers small under
      (omega (arith, length-append (encode 0 es) (0 ∷ rest), length-encode 0 es))
