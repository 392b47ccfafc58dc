-- ===== src/Ipc/Wire/Carrying.antt =====
-- What a writer appends, the matching reader takes off the front of the bytes that are left.
use batuta.Base.{ℕ, ◌+◌, ◌-◌, ◌^◌, ◌≤◌, ◌<◌, ◌≡◌, refl, sym, ap, ◌∙◌, arith}
use batuta.Base.{Bool, true, false, List, [], ◌∷◌, ◌++◌}
use batuta.Base.{length, get_elem?, take, drop, ltb, ◌==◌}
use mathlib.Core.List.{append_assoc, append-nil}
use batuta.Base.{==_iff, subst}
use batuta.Base.{length-append, length-drop, take-append_length, drop-append_length, drop-sum}
use batuta.Ntfs.Bytes.{to_le_bytes}
use batuta.Ntfs.Bytes.Laws.{slice_in, length-to_le_bytes, from_le_bytes-to_le_bytes}
use batuta.Ipc.Wire.{
  ok, Writer, Write, ◌⟫◌, new_writer, new_reader, Reader, Read, ◌>>=◌, done, or_panic,
}
use batuta.Ipc.Wire.{extend_from_slice, write_u8, write_bool, write_u32, write_u64}
use batuta.Ipc.Wire.{take_bytes, uint_of, read_u8, read_bool, read_u32, read_u64}

-- The reader has `bytes` left, of a buffer whose length is a usize.
pub record At (r : Reader) (bytes : List ℕ) : Type 0 where
  pub small : length r.buf < 2 ^ 64
  pub inside : r.pos ≤ length r.buf
  pub left : drop r.pos r.buf ≡ bytes

unfoldable pub Reads : {A : Type 0} → Read A → List ℕ → A → Type 0
Reads p bytes a =
    (r : Reader) (rest : List ℕ)
    → At r (bytes ++ rest)
    → (r' : Reader) × (p r ≡ ok (a, r')) × At r' rest

-- `f` appends bytes, `least` of them or more, from which `p` reads `a`.
pub record Carries {A : Type 0} (least : ℕ) (f : Write) (p : Read A) (a : A) : Type 0 where
  pub bytes : List ℕ
  pub enough : least ≤ length bytes
  pub writes : (w : Writer) → (f w).buf ≡ w.buf ++ bytes
  pub reads : Reads p bytes a

pub take_bytes_in :
    (n : ℕ) (r : Reader)
    → length r.buf < 2 ^ 64
    → r.pos + n ≤ length r.buf
    → take_bytes n r ≡ ok (take n (drop r.pos r.buf), record { buf = r.buf; pos = r.pos + n })
unfolding take_bytes
take_bytes_in n r small inside =
    let fits : ltb (r.pos + n) (2 ^ 64) ≡ true = ground arith in
    let width : r.pos + n - r.pos ≡ n = omega arith in
    rw (fits, take_bytes) (rw (width, slice_in r.buf r.pos n inside, take_bytes) refl)

At-advance :
    (r : Reader) (bytes rest : List ℕ)
    → At r (bytes ++ rest)
    → At (record { buf = r.buf; pos = r.pos + length bytes }) rest
At-advance r bytes rest at = record {
  small = at.small;
  inside =
      omega
        (arith, at.inside, length-drop r.pos r.buf, ap length at.left, length-append bytes rest);
  left =
      drop-sum r.pos (length bytes) r.buf
      ∙ ap (drop (length bytes)) at.left
      ∙ drop-append_length bytes rest;
}

take_all-Reads : (bytes : List ℕ) → Reads (take_bytes (length bytes)) bytes bytes
unfolding Reads
take_all-Reads bytes r rest at =
    let whole = length-drop r.pos r.buf in
    (
      record { buf = r.buf; pos = r.pos + length bytes },
      take_bytes_in (length bytes) r at.small
            (omega (arith, at.inside, whole, ap length at.left, length-append bytes rest))
          ∙ rw (at.left) (rw (take-append_length bytes rest) refl),
      At-advance r bytes rest at,
    )

pub take_bytes-Reads :
    (n : ℕ) (bytes : List ℕ) → length bytes ≡ n → Reads (take_bytes n) bytes bytes
take_bytes-Reads n bytes e = subst (λ n. Reads (take_bytes n) bytes bytes) e (take_all-Reads bytes)

pub Reads-bind :
    {A B : Type 0} (p : Read A) (k : A → Read B) (front back : List ℕ) (a : A) (b : B)
    → Reads p front a
    → Reads (k a) back b
    → Reads (p >>= k) (front ++ back) b
unfolding Reads
Reads-bind p k front back a b h t r rest at =
    let (r1, e1, at1) = h r (back ++ rest) (subst (At r) (append_assoc front back rest) at) in
    let (r2, e2, at2) = t r1 rest at1 in (r2, rw e1 e2, at2)

pub Reads-done : {A : Type 0} (a : A) → Reads (done a) [] a
unfolding Reads
Reads-done a r rest at = (r, refl, at)

-- A step that only computes.
pub Reads-then :
    {A B : Type 0} (p : Read A) (k : A → Read B) (bytes : List ℕ) (a : A) (b : B)
    → Reads p bytes a
    → Reads (k a) [] b
    → Reads (p >>= k) bytes b
Reads-then p k bytes a b h t =
    subst (λ bytes. Reads (p >>= k) bytes b) (append-nil bytes) (Reads-bind p k bytes [] a b h t)

pub uint_of-Reads : (n v : ℕ) → v < 256 ^ n → Reads (uint_of n (to_le_bytes n v)) [] v
unfolding uint_of
uint_of-Reads n v h =
    let width : (length (to_le_bytes n v) == n) ≡ true = (==_iff _ _).1 (length-to_le_bytes n v) in
    rw (width, uint_of) (rw (from_le_bytes-to_le_bytes n v h) (Reads-done v))

pub read_uint-Reads :
    (n v : ℕ) → v < 256 ^ n → Reads (take_bytes n >>= uint_of n) (to_le_bytes n v) v
read_uint-Reads n v h =
    Reads-then (take_bytes n) (uint_of n) (to_le_bytes n v) (to_le_bytes n v) v
      (take_bytes-Reads n (to_le_bytes n v) (length-to_le_bytes n v)) (uint_of-Reads n v h)

pub Carries-bind :
    {A B : Type 0} {m n : ℕ} {f g : Write} {p : Read A} {a : A} {b : B} (k : A → Read B)
    → Carries m f p a
    → Carries n g (k a) b
    → Carries (m + n) (f ⟫ g) (p >>= k) b
Carries-bind {f} {g} {p} {a} {b} k c d = record {
  bytes = c.bytes ++ d.bytes;
  enough = omega (arith, c.enough, d.enough, length-append c.bytes d.bytes);
  writes = λ w.
      d.writes (f w)
      ∙ ap (λ front. front ++ d.bytes) (c.writes w)
      ∙ append_assoc w.buf c.bytes d.bytes;
  reads = Reads-bind p k c.bytes d.bytes a b c.reads d.reads;
}

pub Carries-then :
    {A B : Type 0} {m : ℕ} {f : Write} {p : Read A} {a : A} {b : B} (k : A → Read B)
    → Carries m f p a
    → Reads (k a) [] b
    → Carries m f (p >>= k) b
Carries-then {p} {a} {b} k c d = record {
  bytes = c.bytes;
  enough = c.enough;
  writes = c.writes;
  reads = Reads-then p k c.bytes a b c.reads d;
}

pub Carries-weaken :
    {A : Type 0} {m n : ℕ} {f : Write} {p : Read A} {a : A}
    → n ≤ m
    → Carries m f p a
    → Carries n f p a
Carries-weaken h c = record {
  bytes = c.bytes;
  enough = omega (arith, c.enough);
  writes = c.writes;
  reads = c.reads;
}

pub Carries-done : {A : Type 0} (a : A) → Carries 0 (λ w. w) (done a) a
Carries-done a = record {
  bytes = [];
  enough = omega arith;
  writes = λ w. sym (append-nil w.buf);
  reads = Reads-done a;
}

write_uint-Carries :
    (n v : ℕ)
    → v < 256 ^ n
    → Carries n (extend_from_slice (to_le_bytes n v)) (take_bytes n >>= uint_of n) v
unfolding extend_from_slice
write_uint-Carries n v h = record {
  bytes = to_le_bytes n v;
  enough = omega (arith, length-to_le_bytes n v);
  writes = λ w. refl;
  reads = read_uint-Reads n v h;
}

pub u32-Carries : (v : ℕ) → v < 2 ^ 32 → Carries 4 (write_u32 v) read_u32 v
unfolding write_u32 read_u32
u32-Carries v h = write_uint-Carries 4 v h

pub u64-Carries : (v : ℕ) → v < 2 ^ 64 → Carries 8 (write_u64 v) read_u64 v
unfolding write_u64 read_u64
u64-Carries v h = write_uint-Carries 8 v h

pub u8-Carries : (v : ℕ) → Carries 1 (write_u8 v) read_u8 v
unfolding write_u8 read_u8 extend_from_slice
u8-Carries v = record {
  bytes = v ∷ [];
  enough = omega arith;
  writes = λ w. refl;
  reads =
      Reads-then (take_bytes 1) (λ bytes. or_panic (get_elem? bytes 0)) (v ∷ []) (v ∷ []) v
        (take_bytes-Reads 1 (v ∷ []) refl) (Reads-done v);
}

pub bool-Carries : (v : Bool) → Carries 1 (write_bool v) read_bool v
unfolding write_bool read_bool
bool-Carries true = Carries-then _ (u8-Carries 1) (Reads-done true)
bool-Carries false = Carries-then _ (u8-Carries 0) (Reads-done false)

-- The whole message is read from a buffer that it starts.
pub Carries-run :
    {A : Type 0} {n : ℕ} {f : Write} {p : Read A} {a : A}
    → Carries n f p a
    → (rest : List ℕ) → length ((f new_writer).buf ++ rest) < 2 ^ 64
    → (r : Reader) × (p (new_reader ((f new_writer).buf ++ rest)) ≡ ok (a, r))
unfolding Reads
Carries-run {f} c rest small =
    let whole : (f new_writer).buf ≡ c.bytes = c.writes new_writer in
    let (r, e, at) =
      c.reads (new_reader ((f new_writer).buf ++ rest)) rest (record {
        small = small;
        inside = omega arith;
        left = ap (λ front. front ++ rest) whole;
      }) in
    (r, e)
