-- ===== src/Ntfs/Usn/Reading.antt =====
-- The iteration ends on any buffer, and what it yields lies inside it.
use batuta.Base.{
  ℕ, zero, suc, ◌+◌, ◌-◌, ◌%◌, ◌≤◌, ◌<◌, ◌≡◌, refl, ap, arith, Bool, true, false, not, ◌||◌, Option,
  none, some, List, [], length, ltb, leb, ◌==◌, if◌then◌else◌, Option-cases, inl, inr,
}
use batuta.Base.Fallible.{Returns, returns, Returns-if, Returns-weaken, ◌>>=◌}
use batuta.Ntfs.Bytes.{slice, u16_at, u32_at, u64_at}
use batuta.Ntfs.Bytes.Laws.{slice-length}
use batuta.Ntfs.Usn.{
  UsnRecord, UsnRecords, read_record, or_no_name, Next, on_version, on_len, moved, next_loop, next,
}

-- A record takes 60 bytes or more, inside the buffer, and its name is shorter than it.
abbrev pub Yielded : UsnRecords → ℕ → Option UsnRecord → Type 0
Yielded it stop none = Unit
Yielded it stop (some r) =
    (it.pos + 60 ≤ stop) × (stop ≤ length it.buf) × (length r.name_utf16 ≤ stop - it.pos)

-- What a call of `next` leaves.
pub record Read (it : UsnRecords) (p : Option UsnRecord × UsnRecords) : Type 0 where
  pub buf : p.1.buf ≡ it.buf
  pub forward : it.pos ≤ p.1.pos
  pub yielded : Yielded it p.1.pos p.0

length-or_no_name :
    (rec : List ℕ) (off size : ℕ) → length (or_no_name (slice rec off size)) ≤ length rec
length-or_no_name rec off size = elim (Option-cases (slice rec off size)) [
  | inl e ↦ rw e (omega arith)
  | inr (s, e) ↦
      let (short, inside) = slice-length rec off size e in rw e (omega (arith, short, inside))
]

name_fits :
    (b : Bool) (rec : List ℕ) (off size : ℕ)
    → length (if b then or_no_name (slice rec off size) else []) ≤ length rec
name_fits true rec off size = length-or_no_name rec off size
name_fits false rec off size = omega arith

-- A bind that gives a value has one to go on from.
bind-eq-some {ℓ} :
    {S T : Type ℓ} (o : Option S) (next : S → Option T) {t : T}
    → (o >>= next) ≡ some t
    → (s : S) × (o ≡ some s) × (next s ≡ some t)
bind-eq-some none next h = cc
bind-eq-some (some s) next h = (s, refl, h)

read_record-name :
    (rec : List ℕ) (r : UsnRecord) → read_record rec ≡ some r → length r.name_utf16 ≤ length rec
unfolding read_record
read_record-name rec r h =
    let (size, e₁, h₁) = bind-eq-some (u16_at rec 0x38) _ h in
    let (off, e₂, h₂) = bind-eq-some (u16_at rec 0x3A) _ h₁ in
    let (usn, e₃, h₃) = bind-eq-some (u64_at rec 0x18) _ h₂ in
    let (file, e₄, h₄) = bind-eq-some (u64_at rec 0x08) _ h₃ in
    let (parent, e₅, h₅) = bind-eq-some (u64_at rec 0x10) _ h₄ in
    let (reason, e₆, h₆) = bind-eq-some (u32_at rec 0x28) _ h₅ in
    let (attributes, e₇, h₇) = bind-eq-some (u32_at rec 0x34) _ h₆ in
    let same : (if leb 0x3C off then or_no_name (slice rec off size) else []) ≡ r.name_utf16 =
      ap name_or_none h₇ in
    omega (arith, ap (length {A = ℕ}) same, name_fits (leb 0x3C off) rec off size)
  where
    name_or_none : Option UsnRecord → List ℕ
    name_or_none none = []
    name_or_none (some x) = x.name_utf16

-- The record of 60 bytes or more at the position.
Yielded-record :
    (it : UsnRecords) (len : ℕ)
    → 60 ≤ len
    → it.pos + len ≤ length it.buf
    → Yielded it (it.pos + len) (slice it.buf it.pos len >>= read_record)
Yielded-record it len big inside = go (slice it.buf it.pos len >>= read_record) refl
  where
    go :
        (o : Option UsnRecord)
        → (slice it.buf it.pos len >>= read_record) ≡ o
        → Yielded it (it.pos + len) o
    go none e = tt
    go (some r) e =
        let (rec, e₁, e₂) = bind-eq-some (slice it.buf it.pos len) read_record e in
        (
          omega (arith, big),
          inside,
          omega (arith, (slice-length it.buf it.pos len e₁).0, read_record-name rec r e₂),
        )

-- A call that goes on behind a record of another version.
Read-later :
    (it : UsnRecords) (len : ℕ) (p : Option UsnRecord × UsnRecords)
    → Read (moved it len) p
    → Read it p
Read-later it len (none, it') h = record {
  buf = h.buf;
  forward = omega (arith, h.forward);
  yielded = tt;
}
Read-later it len (some r, it') h =
    let (far, inside, short) = h.yielded in
    record {
      buf = h.buf;
      forward = omega (arith, h.forward);
      yielded = (omega (arith, far), inside, omega (arith, short));
    }

stopped :
    (it it' : UsnRecords)
    → it'.buf ≡ it.buf
    → it.pos ≤ it'.pos
    → Returns (Read it) (some (none, it'))
stopped it it' e h = returns _ (record { buf = e; forward = h; yielded = tt })

on_version-Read :
    (o : Option ℕ) (it : UsnRecords) (len : ℕ) (rest : Next)
    → 60 ≤ len
    → it.pos + len ≤ length it.buf
    → Returns (Read (moved it len)) rest
    → Returns (Read it) (on_version o it.pos len (moved it len) rest)
on_version-Read none it len rest big inside h = stopped it (moved it len) refl (omega arith)
on_version-Read (some major) it len rest big inside h =
    Returns-if (not (major == 2)) _ _ (λ _. Returns-weaken _ (Read-later it len) h)
      λ _.
        returns _
          (record { buf = refl; forward = omega arith; yielded = Yielded-record it len big inside })

on_len-Read :
    (o : Option ℕ) (it : UsnRecords) (again : UsnRecords → Next)
    → ((len : ℕ)
        → 60 ≤ len
        → it.pos + len ≤ length it.buf
        → Returns (Read (moved it len)) (again (moved it len)))
    → Returns (Read it) (on_len o it again)
on_len-Read none it again h = stopped it it refl (omega arith)
on_len-Read (some len) it again h =
    Returns-if (ltb len 0x3C || not (len % 8 == 0) || ltb (length it.buf) (it.pos + len)) _ _
      (λ _. stopped it it refl (omega arith))
      λ good.
        let big : 60 ≤ len = ground arith in
        let inside : it.pos + len ≤ length it.buf = ground arith in
        on_version-Read (u16_at it.buf (it.pos + 4)) it len (again (moved it len)) big inside
          (h len big inside)

next_loop-Read :
    (fuel : ℕ) (it : UsnRecords)
    → 1 ≤ fuel
    → length it.buf < it.pos + fuel
    → Returns (Read it) (next_loop fuel it)
unfolding next_loop
next_loop-Read zero it pos h = absurd (omega arith)
next_loop-Read (suc fuel) it pos h =
    Returns-if (ltb (length it.buf) (it.pos + 4)) _ _ (λ _. stopped it it refl (omega arith))
      λ _. on_len-Read (u32_at it.buf it.pos) it (next_loop fuel) λ len big inside.
        next_loop-Read fuel (moved it len) (omega (arith, h, big, inside))
          (omega (arith, h, big, inside))

-- `next` returns on any buffer and at any position. It never goes back, and a record that it
-- yields took at least 60 bytes that lie inside the buffer, with a name no longer than they are.
pub next-Read : (it : UsnRecords) → Returns (Read it) (next it)
unfolding next
next-Read it = next_loop-Read (length it.buf + 1) it (omega arith) (omega arith)
