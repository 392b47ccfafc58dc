-- ===== src/Ipc/Frame/Laws.antt =====
-- Frames on streams in memory: a `Vec<u8>` that is written to, a `&[u8]` that is read from.
use batuta.Base.{ℕ, ◌%◌, ◌^◌, ◌≤◌, ◌<◌, ◌≡◌, refl, sym, ap, ◌∙◌, arith, subst}
use batuta.Base.{true, false, List, ◌++◌, Bool-cases, inl, inr}
use batuta.Base.{
  leb→le, length, take, drop, ltb, leb, if◌then◌else◌, length-append, length-take,
  take-append_length, drop-append_length,
}
use mathlib.Core.List.{append_assoc}
use batuta.Ntfs.Bytes.{from_le_bytes, to_le_bytes}
use batuta.Ntfs.Bytes.Laws.{length-to_le_bytes, from_le_bytes-to_le_bytes}
use batuta.Ipc.Wire.{Result, ok, err, panic, too_large, io, bind, max_frame}
use batuta.Ipc.Frame.{Output, Input, write_frame, read_payload, read_frame}

-- `impl Write for Vec<u8>`
abbrev pub to_vec : Output (List ℕ)
to_vec = record { write_all = λ bytes w. ok (w ++ bytes); flush = λ w. ok w }

abbrev pub read_slice : ℕ → List ℕ → Result (List ℕ × List ℕ)
read_slice n r =
    if leb n (length r) then ok (take n r, drop n r) else err (io "failed to fill whole buffer")

pub read_slice-fills :
    (n : ℕ) (r r' bytes : List ℕ) → read_slice n r ≡ ok (bytes, r') → length bytes ≡ n
read_slice-fills n r r' bytes e = elim (Bool-cases (leb n (length r))) [
  | inl fits ↦
      let taken : Path (Result (List ℕ × List ℕ)) (ok (take n r, drop n r)) (ok (bytes, r')) =
        rw (fits) at (e) in
      let same : take n r ≡ bytes = cc in
      omega (arith, ap length same, length-take n r, leb→le n (length r) fits)
  | inr short ↦ cc (rw (short) at (e))
]

-- `impl Read for &[u8]`
abbrev pub from_slice : Input (List ℕ)
from_slice = record { read_exact = read_slice; fills = read_slice-fills }

read_slice_front :
    (n : ℕ) (bytes rest : List ℕ)
    → length bytes ≡ n
    → read_slice n (bytes ++ rest) ≡ ok (bytes, rest)
read_slice_front n bytes rest e =
    subst (λ n. read_slice n (bytes ++ rest) ≡ ok (bytes, rest)) e whole
  where
    whole : read_slice (length bytes) (bytes ++ rest) ≡ ok (bytes, rest)
    whole =
        let fits : leb (length bytes) (length (bytes ++ rest)) ≡ true =
          ground (arith, length-append bytes rest) in
        rw fits (rw (take-append_length bytes rest, drop-append_length bytes rest) refl)

bind-eq-ok :
    {A B : Type 0} (m : Result A) (next : A → Result B) {b : B}
    → bind m next ≡ ok b
    → (a : A) × (m ≡ ok a) × (next a ≡ ok b)
bind-eq-ok panic next h = cc
bind-eq-ok (err why) next h = cc
bind-eq-ok (ok a) next h = (a, refl, h)

frame_of : List ℕ → List ℕ
frame_of payload = to_le_bytes 4 (length payload % 2 ^ 32) ++ payload

write_frame_vec :
    (payload front : List ℕ)
    → length payload ≤ max_frame
    → write_frame to_vec payload front ≡ ok (front ++ frame_of payload)
unfolding write_frame frame_of
write_frame_vec payload front h =
    let fits : ltb max_frame (length payload) ≡ false = ground (arith, h) in
    rw fits (ap ok (append_assoc front (to_le_bytes 4 (length payload % 2 ^ 32)) payload))

read_frame_front :
    (payload rest : List ℕ)
    → length payload ≤ max_frame
    → read_frame from_slice (frame_of payload ++ rest) ≡ ok (payload, rest)
unfolding read_frame read_payload frame_of
read_frame_front payload rest h =
    let field : length payload % 2 ^ 32 ≡ length payload = omega (arith, h) in
    let fits : ltb max_frame (length payload) ≡ false = ground (arith, h) in
    let prefix : List ℕ = to_le_bytes 4 (length payload % 2 ^ 32) in
    let declared : from_le_bytes prefix ≡ length payload =
      from_le_bytes-to_le_bytes 4 (length payload % 2 ^ 32) (omega (arith, field, h)) ∙ field in
    let whole : (prefix ++ payload) ++ rest ≡ prefix ++ (payload ++ rest) =
      append_assoc prefix payload rest in
    ap
      (λ bytes.
        bind (read_slice 4 bytes) λ (len, r1). read_payload from_slice (from_le_bytes len) r1)
      whole
    ∙ ap (λ m. bind m λ (len, r1). read_payload from_slice (from_le_bytes len) r1)
        (read_slice_front 4 prefix (payload ++ rest) (length-to_le_bytes 4 _))
    ∙ ap (λ n. read_payload from_slice n (payload ++ rest)) declared
    ∙ rw fits (read_slice_front (length payload) payload rest refl)

-- What was written in memory after `front`, read from where it starts.
pub record Framed (payload front rest out : List ℕ) : Type 0 where
  pub written : write_frame to_vec payload front ≡ ok (front ++ out)
  pub read : read_frame from_slice (out ++ rest) ≡ ok (payload, rest)

-- A payload of 8 MiB at most, written as a frame to a vector, is appended to what the vector held as
-- bytes from which `read_frame` reads the payload and leaves what follows them.
pub write_frame-Framed :
    (payload front rest : List ℕ)
    → length payload ≤ max_frame
    → (out : List ℕ) × Framed payload front rest out
write_frame-Framed payload front rest h = (
  frame_of payload,
  record { written = write_frame_vec payload front h; read = read_frame_front payload rest h },
)

module _ {S : Type 0} (i : Input S) where
  read_payload-ok :
      (n : ℕ) (s s' : S) (payload : List ℕ)
      → read_payload i n s ≡ ok (payload, s')
      → (n ≤ max_frame) × (length payload ≡ n)
  unfolding read_payload
  read_payload-ok n s s' payload e = elim (Bool-cases (ltb max_frame n)) [
    | inl many ↦ cc (rw many at e)
    | inr few ↦ (ground (arith, few), i.fills n s s' payload (rw few at e))
  ]

  -- On any stream whose `read_exact` fills the buffer it is given or fails, a frame that is read has
  -- 8 MiB at most, and it is as long as the four bytes before it declare.
  pub read_frame-max :
      (r r' : S) (payload : List ℕ)
      → read_frame i r ≡ ok (payload, r')
      → (length payload ≤ max_frame)
        × ((len : List ℕ) × (r1 : S) × (i.read_exact 4 r ≡ ok (len, r1))
            × (from_le_bytes len ≡ length payload))
  unfolding read_frame read_payload
  read_frame-max r r' payload e =
      let (m, start, rest) =
        bind-eq-ok (i.read_exact 4 r) (λ (len, r1). read_payload i (from_le_bytes len) r1) e in
      let (few, filled) = read_payload-ok (from_le_bytes m.0) m.1 r' payload rest in
      (omega (arith, few, filled), (m.0, m.1, start, sym filled))

module _ {S : Type 0} (o : Output S) where
  -- A payload above 8 MiB is refused, and nothing of it is written.
  pub write_frame-refuses :
      (payload : List ℕ) (w : S)
      → max_frame < length payload
      → write_frame o payload w ≡ err (too_large "frame")
  unfolding write_frame
  write_frame-refuses payload w h =
      let many : ltb max_frame (length payload) ≡ true = ground (arith, h) in rw many refl
