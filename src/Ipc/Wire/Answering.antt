-- ===== src/Ipc/Wire/Answering.antt =====
-- On any bytes the reader answers: a value, further along the same buffer, or an error.
use Prim.Native.String.{String}
use batuta.Base.{ℕ, zero, suc, ◌+◌, ◌-◌, ◌*◌, ◌^◌, ◌≤◌, ◌<◌, ◌≡◌, refl, ap, arith, subst}
use native.Mathlib.Nat.{mul-le-mul}
use batuta.Base.{min, Bool, true, false, Option, none, some, List, [], ◌∷◌, inl, inr}
use batuta.Base.{length, get_elem?, ltb, ◌==◌, if◌then◌else◌, All, Bool-cases}
use batuta.Base.{==_iff}
use batuta.Ntfs.Bytes.{IsByte, slice, from_le_bytes}
use batuta.Ntfs.Bytes.Laws.{slice-length, slice-IsByte, from_le_bytes-lt}
use batuta.Core.Names.{is_utf8}
use batuta.Ipc.Wire.{
  Result, ok, err, panic, new_reader, IpcError, truncated, too_large, bad_utf8, io, Reader, Read,
  bind, ◌>>=◌, done, fail, or_panic, remaining, saturating_mul,
}
use batuta.Ipc.Wire.{
  take_bytes, uint_of, read_u8, read_bool, read_u32, read_u64, from_utf8, read_str, read_opt_str,
  read_opt_u64, read_count, read_each, max_string, max_rows,
}
use batuta.Ipc.Wire.Fields.{IsStr, IsOptStr, IsOptUint}

-- The reader is inside a buffer of bytes.
pub record In (r : Reader) : Type 0 where
  pub inside : r.pos ≤ length r.buf
  pub bytes : All IsByte r.buf

-- Decoding does no input or output.
abbrev pub IsRefusal : IpcError → Type 0
IsRefusal (io why) = ⊥
IsRefusal e = Unit {0}

pub data Yields {A : Type 0} (P : A → Type 0) : Result (A × Reader) → Type 0 where
  yields : (a : A) (r : Reader) → P a → In r → Yields P (ok (a, r))
  refuses : (e : IpcError) → IsRefusal e → Yields P (err e)

-- `p` never panics, its errors are refusals, and `P` holds of what it reads.
pub record Answers {A : Type 0} (P : A → Type 0) (p : Read A) : Type 0 where
  pub run : (r : Reader) → In r → Yields P (p r)

onward :
    {A B : Type 0} {P : A → Type 0} {Q : B → Type 0} (k : A → Read B) (m : Result (A × Reader))
    → Yields P m
    → ((a : A) → P a → Answers Q (k a))
    → Yields Q (bind m λ (a, r). k a r)
onward k panic h t = elim h [ ]
onward k (ok (a, r)) (yields _ _ ha i) t = (t a ha).run r i
onward k (err e) (refuses _ he) t = refuses e he

pub Answers-bind :
    {A B : Type 0} {P : A → Type 0} {Q : B → Type 0} (p : Read A) (k : A → Read B)
    → Answers P p
    → ((a : A) → P a → Answers Q (k a))
    → Answers Q (p >>= k)
Answers-bind p k h t = record { run = λ r i. onward k (p r) (h.run r i) t }

pub Answers-done : {A : Type 0} {P : A → Type 0} (a : A) → P a → Answers P (done a)
Answers-done a h = record { run = λ r i. yields a r h i }

pub Answers-fail : {A : Type 0} {P : A → Type 0} (e : IpcError) → IsRefusal e → Answers P (fail e)
Answers-fail e h = record { run = λ r i. refuses e h }

pub Answers-if :
    {A : Type 0} {P : A → Type 0} (b : Bool) (p q : Read A)
    → (b ≡ true → Answers P p)
    → (b ≡ false → Answers P q)
    → Answers P (if b then p else q)
Answers-if true p q hp hq = hp refl
Answers-if false p q hp hq = hq refl

-- What a slice of `n` bytes is.
pub record IsSlice (n : ℕ) (bytes : List ℕ) : Type 0 where
  pub wide : length bytes ≡ n
  pub all_bytes : All IsByte bytes

cut_off :
    (n : ℕ) (r : Reader) (o : Option (List ℕ))
    → In r
    → slice r.buf r.pos (r.pos + n - r.pos) ≡ o
    → Yields
        (IsSlice n)
        (elim o [ none ↦ err truncated | some s ↦ ok (s, record { buf = r.buf; pos = r.pos + n }) ])
cut_off n r none i e = refuses truncated tt
cut_off n r (some s) i e =
    let (wide, inside) = slice-length r.buf r.pos _ e in
    yields s _
      (record { wide = omega (arith, wide); all_bytes = slice-IsByte r.buf r.pos _ s i.bytes e })
      (record { inside = omega (arith, inside); bytes = i.bytes })

pub take_bytes-Answers : (n : ℕ) → Answers (IsSlice n) (take_bytes n)
unfolding take_bytes
take_bytes-Answers n = record {
  run = λ r i. elim (Bool-cases (ltb (r.pos + n) (2 ^ 64))) [
    | inl fits ↦ rw (fits, take_bytes) (cut_off n r _ i refl)
    | inr wraps ↦ rw (wraps, take_bytes) (refuses truncated tt)
  ];
}

pub uint_of-Answers :
    (n : ℕ) (bytes : List ℕ) → IsSlice n bytes → Answers (λ v. v < 256 ^ n) (uint_of n bytes)
unfolding uint_of
uint_of-Answers n bytes h =
    let width : (length bytes == n) ≡ true = (==_iff _ _).1 h.wide in
    rw (width) (
      Answers-done _
        (subst (λ n. from_le_bytes bytes < 256 ^ n) h.wide (from_le_bytes-lt bytes h.all_bytes)))

pub u8-Answers : Answers (λ v. v < 256) read_u8
unfolding read_u8
u8-Answers = Answers-bind _ _ (take_bytes-Answers 1) first
  where
    first :
        (bytes : List ℕ) → IsSlice 1 bytes → Answers (λ v. v < 256) (or_panic (get_elem? bytes 0))
    first [] h = absurd (omega (arith, h.wide))
    first (b ∷ bytes) h = Answers-done b h.all_bytes.0

pub bool-Answers : Answers (λ b. Unit {0}) read_bool
unfolding read_bool
bool-Answers = Answers-bind _ _ u8-Answers λ v h. Answers-done _ tt

pub u32-Answers : Answers (λ v. v < 2 ^ 32) read_u32
unfolding read_u32
u32-Answers = Answers-bind _ _ (take_bytes-Answers 4) (uint_of-Answers 4)

pub u64-Answers : Answers (λ v. v < 2 ^ 64) read_u64
unfolding read_u64
u64-Answers = Answers-bind _ _ (take_bytes-Answers 8) (uint_of-Answers 8)

from_utf8-Answers :
    (n : ℕ) (bytes : List ℕ) → n ≤ max_string → IsSlice n bytes → Answers IsStr (from_utf8 bytes)
unfolding from_utf8
from_utf8-Answers n bytes small h =
    Answers-if (is_utf8 bytes) _ _
      (λ e. Answers-done bytes (record { short = omega (arith, small, h.wide); valid = e }))
      (λ e. Answers-fail bad_utf8 tt)

pub read_str-Answers : Answers IsStr read_str
unfolding read_str
read_str-Answers = Answers-bind _ _ u32-Answers λ n h.
    Answers-if (ltb max_string n) _ _ (λ e. Answers-fail (too_large "string") tt)
      (λ e.
        Answers-bind _ _ (take_bytes-Answers n)
          λ bytes s. from_utf8-Answers n bytes (ground (arith, e)) s)

pub read_opt_str-Answers : Answers IsOptStr read_opt_str
unfolding read_opt_str
read_opt_str-Answers = Answers-bind _ _ bool-Answers λ b h.
    Answers-if b _ _ (λ e. Answers-bind _ _ read_str-Answers λ s hs. Answers-done (some s) hs)
      (λ e. Answers-done none tt)

pub opt_u64-Answers : Answers (IsOptUint 64) read_opt_u64
unfolding read_opt_u64
opt_u64-Answers = Answers-bind _ _ bool-Answers λ b h.
    Answers-if b _ _ (λ e. Answers-bind _ _ u64-Answers λ v hv. Answers-done (some v) hv)
      (λ e. Answers-done none tt)

pub each-Answers :
    {A : Type 0} {P : A → Type 0} (p : Read A) (n : ℕ)
    → Answers P p
    → Answers (λ xs. (length xs ≡ n) × All P xs) (read_each p n)
unfolding read_each
each-Answers p zero h = Answers-done [] (refl, tt)
each-Answers p (suc n) h = Answers-bind _ _ h λ x hx.
    Answers-bind _ _ (each-Answers p n h) λ xs t. Answers-done (x ∷ xs) (ap suc t.0, (hx, t.1))

-- A count that the bytes left can hold.
pub record IsBacked (least n : ℕ) (r : Reader) : Type 0 where
  pub few : n ≤ max_rows
  pub held : n * least ≤ length r.buf - r.pos
  pub within : In r

pub data Counts (least : ℕ) : Result (ℕ × Reader) → Type 0 where
  backed : (n : ℕ) (r : Reader) → IsBacked least n r → Counts least (ok (n, r))
  refused : (e : IpcError) → IsRefusal e → Counts least (err e)

product_le : (n least : ℕ) → n ≤ max_rows → least ≤ 1024 → n * least ≤ 1024 * max_rows
product_le n least few small = omega (arith, mul-le-mul few small)

-- Below 2 ^ 64 the product does not saturate.
fits_left :
    (product left : ℕ)
    → product ≤ 1024 * max_rows
    → ltb left (min product (2 ^ 64 - 1)) ≡ false
    → product ≤ left
fits_left product left small h = ground arith

counted :
    (least : ℕ) (what : String) (n : ℕ) (r : Reader)
    → least ≤ 1024
    → In r
    → Counts least (
        (if ltb max_rows n
            then fail (too_large what)
            else (remaining >>= λ left.
                if ltb left (saturating_mul n least) then fail truncated else done n))
          r)
counted least what n r small i = elim (Bool-cases (ltb max_rows n)) [
  | inl many ↦ rw many (refused (too_large what) tt)
  | inr few ↦ elim (Bool-cases (ltb (length r.buf - r.pos) (saturating_mul n least))) [
    | inl short ↦ rw few (rw here (rw short (refused truncated tt)))
    | inr held ↦ rw few (
        rw here (
          rw held (
            backed n r (record {
              few = ground (arith, few);
              held =
                  fits_left (n * least) (length r.buf - r.pos)
                    (product_le n least (ground (arith, few)) small) held;
              within = i;
            }))))
  ]
]
  where
    here : ltb (length r.buf) r.pos ≡ false
    here = ground (arith, i.inside)

-- The count that sizes an allocation: on any reader inside a buffer of bytes, with 1024 bytes an entry
-- at most, `read_count` gives a count of a million at most whose entries, of `least` bytes each, fit in
-- the bytes that are left, or refuses; it neither panics nor fails as input or output does.
pub count-Counts :
    (least : ℕ) (what : String) (r : Reader)
    → least ≤ 1024
    → In r
    → Counts least (read_count least what r)
unfolding read_count
count-Counts least what r small i = after (read_u32 r) (u32-Answers.run r i)
  where
    after :
        (m : Result (ℕ × Reader))
        → Yields (λ v. v < 2 ^ 32) m
        → Counts least (
            bind m λ (n, r').
              (if ltb max_rows n
                  then fail (too_large what)
                  else (remaining >>= λ left.
                      if ltb left (saturating_mul n least) then fail truncated else done n))
                r')
    after panic h = elim h [ ]
    after (ok (n, r')) (yields _ _ hn i') = counted least what n r' small i'
    after (err e) (refuses _ h) = refused e h

pub count-Answers :
    (least : ℕ) (what : String) → least ≤ 1024 → Answers (λ n. n ≤ max_rows) (read_count least what)
count-Answers least what small = record { run = λ r i. from _ (count-Counts least what r small i) }
  where
    from : (m : Result (ℕ × Reader)) → Counts least m → Yields (λ n. n ≤ max_rows) m
    from (ok (n, r)) (backed _ _ h) = yields n r h.few h.within
    from (err e) (refused _ h) = refuses e h
    from panic h = elim h [ ]

-- The outcome of decoding a message.
pub data Decoded {A : Type 0} (P : A → Type 0) : Result A → Type 0 where
  decoded : (a : A) → P a → Decoded P (ok a)
  refusal : (e : IpcError) → IsRefusal e → Decoded P (err e)

ending :
    {A : Type 0} {P : A → Type 0} (m : Result (A × Reader))
    → Yields P m
    → Decoded P (bind m λ (a, r). ok a)
ending panic h = elim h [ ]
ending (ok (a, r)) (yields _ _ h i) = decoded a h
ending (err e) (refuses _ h) = refusal e h

pub Decoded-run :
    {A : Type 0} {P : A → Type 0} (p : Read A) (buf : List ℕ)
    → Answers P p
    → All IsByte buf
    → Decoded P (bind (p (new_reader buf)) λ (a, r). ok a)
Decoded-run p buf h bytes =
    ending (p (new_reader buf)) (h.run _ (record { inside = omega arith; bytes = bytes }))
