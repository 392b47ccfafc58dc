-- ===== src/Ipc/Frame.antt =====
-- crates/batuta-ipc/src/lib.rs, its framing: a payload after its length, on a stream.
pub mod Laws
use batuta.Base.{ℕ, ◌+◌, ◌%◌, ◌^◌, ◌≡◌, Bool, true, false, Option, none, some, List, [], ◌∷◌, ◌++◌}
use batuta.Base.{length, take, drop, ltb, leb, if◌then◌else◌}
use batuta.Ntfs.Bytes.{from_le_bytes, to_le_bytes}
use batuta.Ipc.Wire.{Result, ok, err, panic, too_large, io, bind, max_frame}

-- `std::io::Write`, as much as is used of it, and `std::io::Read`, of which `read_exact` fills the
-- buffer it is given or fails.
pub record Output (S : Type 0) : Type 0 where
  pub write_all : List ℕ → S → Result S
  pub flush : S → Result S

pub record Input (S : Type 0) : Type 0 where
  pub read_exact : ℕ → S → Result (List ℕ × S)
  pub fills :
      (n : ℕ) (s s' : S) (bytes : List ℕ) → read_exact n s ≡ ok (bytes, s') → length bytes ≡ n

unfoldable pub write_frame : {S : Type 0} → Output S → List ℕ → S → Result S
unfolding to_le_bytes
write_frame o payload w =
    if ltb max_frame (length payload)
    then err (too_large "frame")
    else bind (o.write_all (to_le_bytes 4 (length payload % 2 ^ 32)) w)
        λ w1. bind (o.write_all payload w1) o.flush

-- The check of the length, and the read into a buffer of that length.
unfoldable pub read_payload : {S : Type 0} → Input S → ℕ → S → Result (List ℕ × S)
read_payload i n r = if ltb max_frame n then err (too_large "frame") else i.read_exact n r

unfoldable pub read_frame : {S : Type 0} → Input S → S → Result (List ℕ × S)
unfolding from_le_bytes read_payload
read_frame i r = bind (i.read_exact 4 r) λ (len, r1). read_payload i (from_le_bytes len) r1
