-- ===== src/Ntfs/Attributes/Reading.antt =====
-- Reading one attribute inside a record: it answers, and its parts stand inside it.
use batuta.Base.{ℕ, ◌+◌, ◌-◌, ◌*◌, ◌≤◌, ◌≡◌, refl, sym, ap, ◌∙◌, subst, arith}
use batuta.Base.{Bool, true, false, ◌||◌, ◌⊎◌, some, List, [], inl, inr}
use batuta.Base.{length, ltb, leb, leb→le, ◌==◌, if◌then◌else◌, Bool-cases}
use batuta.Ntfs.Bytes.{ok, NtfsError, bad_attribute, ok_or, or_panic, reject}
use batuta.Ntfs.Bytes.{unwrap_or, slice, u8_at, u16_at, u32_at}
use batuta.Ntfs.Bytes.Laws.{slice_in, slice-length}
use batuta.Ntfs.Bytes.Results.{
  bind-eq-ok, ok_or-eq-ok, or_panic-eq-ok, reject-eq-ok, ok_injective, Answers, value,
}
use batuta.Ntfs.Bytes.Results.{answers_rules, Answers-bind, Answers-reject}
use batuta.Ntfs.Attributes.{Attribute, AttrBody, resident, non_resident}
use batuta.Ntfs.Attributes.{read_name, read_resident, read_non_resident, read_attribute}

abbrev IsBadAt : ℕ → NtfsError → Type 0
IsBadAt base e = e ≡ bad_attribute base

-- The slice to a run list lies inside the attribute.
read_non_resident-Answers :
    (buf : List ℕ) (base len : ℕ)
    → base + len ≤ length buf
    → Answers (IsBadAt base) (read_non_resident buf base len)
unfolding read_non_resident
read_non_resident-Answers buf base len h =
    let runs_off = unwrap_or (u16_at buf (base + 0x20)) 0 in
    Answers-bind (reject (ltb runs_off 0x40 || ltb len runs_off) (bad_attribute base)) _
      (Answers-reject _ _ refl)
      λ u inside.
        Answers-bind (or_panic (slice buf (base + runs_off) (len - runs_off))) _
          (rw
            (slice_in buf (base + runs_off) (len - runs_off)
              (ground (arith, reject-eq-ok _ _ inside)))
            (value _))
          λ runs _. value _

read_name-Answers : (buf : List ℕ) (base len : ℕ) → Answers (IsBadAt base) (read_name buf base len)
unfolding read_name
read_name-Answers buf base len = search answers_rules

read_resident-Answers :
    (buf : List ℕ) (base len : ℕ) → Answers (IsBadAt base) (read_resident buf base len)
unfolding read_resident
read_resident-Answers buf base len = search answers_rules depth 8

pub read_attribute-Answers :
    (buf : List ℕ) (base len ty : ℕ)
    → base + len ≤ length buf
    → Answers (IsBadAt base) (read_attribute buf base len ty)
unfolding read_attribute
read_attribute-Answers buf base len ty h =
    search (answers_rules, read_name-Answers, read_resident-Answers, read_non_resident-Answers)
      depth 8

-- The bytes are none, or those that stand in the buffer at some place between `from` and `to`.
abbrev pub Within : List ℕ → (from to : ℕ) → List ℕ → Type 0
Within buf from to bytes =
    (bytes ≡ [])
    ⊎ ((off : ℕ) × (from ≤ off)
        × (off + length bytes ≤ to)
        × (slice buf off (length bytes) ≡ some bytes))

-- A value stands in the attribute from `from` to `to`; a run list, past the 64 bytes of its header.
abbrev pub BodyWithin : List ℕ → (from to : ℕ) → AttrBody → Type 0
BodyWithin buf from to (resident v) = Within buf from to v
BodyWithin buf from to (non_resident x) = Within buf (from + 0x40) to x.runs

slice-Within :
    (buf : List ℕ) (from to off size : ℕ) (bytes : List ℕ)
    → slice buf off size ≡ some bytes
    → from ≤ off
    → off + size ≤ to
    → Within buf from to bytes
slice-Within buf from to off size bytes h low high =
    let count : length bytes ≡ size = (slice-length buf off size h).0 in
    inr (off, low, omega (arith, count, high), ap (slice buf off) count ∙ h)

pub read_name_fits :
    (buf : List ℕ) (base len : ℕ) (name : List ℕ)
    → read_name buf base len ≡ ok name
    → Within buf base (base + len) name
unfolding read_name
read_name_fits buf base len name h =
    let size = unwrap_or (u8_at buf (base + 0x09)) 0 * 2 in
    let off = unwrap_or (u16_at buf (base + 0x0A)) 0 in
    elim (Bool-cases (size == 0)) [
      | inl e ↦ inl (sym (ok_injective [] name (rw e at h)))
      | inr e ↦ elim (Bool-cases (leb (off + size) len)) [
        | inl f ↦
            slice-Within buf base (base + len) (base + off) size name
              (ok_or-eq-ok (slice buf (base + off) size) (bad_attribute base) (rw (e, f) at h))
              (omega arith) (omega (arith, leb→le _ _ f))
        | inr f ↦ absurd (cc (e, f, h))
      ]
    ]

pub read_resident_fits :
    (buf : List ℕ) (base len : ℕ) (b : AttrBody)
    → read_resident buf base len ≡ ok b
    → BodyWithin buf base (base + len) b
unfolding read_resident
read_resident_fits buf base len b h =
    let size = unwrap_or (u32_at buf (base + 0x10)) 0 in
    let off = unwrap_or (u16_at buf (base + 0x14)) 0 in
    let (u, inside, h₁) = bind-eq-ok (reject (ltb len (off + size)) (bad_attribute base)) _ h in
    let (v, read, h₂) =
      bind-eq-ok (ok_or (slice buf (base + off) size) (bad_attribute base)) _ h₁ in
    subst (BodyWithin buf base (base + len)) (ok_injective (resident v) b h₂) (
      slice-Within buf base (base + len) (base + off) size v (ok_or-eq-ok _ _ read) (omega arith)
        (ground (arith, reject-eq-ok _ _ inside)))

pub read_non_resident_fits :
    (buf : List ℕ) (base len : ℕ) (b : AttrBody)
    → read_non_resident buf base len ≡ ok b
    → BodyWithin buf base (base + len) b
unfolding read_non_resident
read_non_resident_fits buf base len b h =
    let off = unwrap_or (u16_at buf (base + 0x20)) 0 in
    let (u, inside, h₁) =
      bind-eq-ok (reject (ltb off 0x40 || ltb len off) (bad_attribute base)) _ h in
    let (runs, read, h₂) = bind-eq-ok (or_panic (slice buf (base + off) (len - off))) _ h₁ in
    subst (BodyWithin buf base (base + len)) (ok_injective _ b h₂) (
      slice-Within buf (base + 0x40) (base + len) (base + off) (len - off) runs
        (or_panic-eq-ok _ read) (ground (arith, reject-eq-ok _ _ inside))
        (ground (arith, reject-eq-ok _ _ inside)))

read-BodyWithin :
    (flag : Bool) (buf : List ℕ) (base len : ℕ) (b : AttrBody)
    → (if flag then read_resident buf base len else read_non_resident buf base len) ≡ ok b
    → BodyWithin buf base (base + len) b
read-BodyWithin true buf base len b h = read_resident_fits buf base len b h
read-BodyWithin false buf base len b h = read_non_resident_fits buf base len b h

pub read_attribute_fits :
    (buf : List ℕ) (base len ty : ℕ) (a : Attribute)
    → read_attribute buf base len ty ≡ ok a
    → (a.ty ≡ ty)
      × (Within buf base (base + len) a.name_utf16)
      × BodyWithin buf base (base + len) a.body
unfolding read_attribute
read_attribute_fits buf base len ty a h =
    let (name, named, h₁) = bind-eq-ok (read_name buf base len) _ h in
    let (body, read, h₂) = bind-eq-ok _ _ h₁ in
    subst
      (λ (x : Attribute).
        (x.ty ≡ ty)
        × (Within buf base (base + len) x.name_utf16)
        × BodyWithin buf base (base + len) x.body)
      (ok_injective _ a h₂)
      (refl, read_name_fits buf base len name named, read-BodyWithin _ buf base len body read)
