-- ===== src/Ntfs/RunList/Decode.antt =====
-- Decoding any bytes: what an accepted run list satisfies, and that parsing ends.
use batuta.Base.{ℕ, zero, suc, ◌+◌, ◌/◌, ◌^◌, ◌≤◌, ◌<◌, ◌≡◌, refl, sym, subst, ◌∙◌, arith}
use batuta.Base.{false, ◌||◌, Option, none, some, List, [], ◌∷◌, ◌++◌, ◌⊎◌, inl, inr, bit_and}
use batuta.Base.{length as length_of, get_elem?, ltb, ◌==◌, Option-cases}
use batuta.Base.Int.{ℤ, neg_part, checked_add_i64, checked_add_i64_in_range}
use batuta.Ntfs.Bytes.{Result, ok, NtfsError, bad_run_list, ok_or, reject, slice}
use batuta.Ntfs.Bytes.Laws.{slice-length}
use batuta.Ntfs.Bytes.Results.{bind-eq-ok, ok_or-eq-ok, reject-eq-ok}
use batuta.Ntfs.RunList.{
  Run, Cursor, read_uint, read_int, read_lcn, parse_run, parse_loop, parse, on_header,
}
use batuta.Ntfs.RunList.{start_cursor, over_cap, checked_add_u64, cluster_count}
use mathlib.Core.List.{append_assoc, append-nil}

-- A logical cluster number is an i64 that is not negative.
abbrev pub LcnFits : Option ℕ → Type 0
LcnFits none = Unit
LcnFits (some lcn) = lcn < 2 ^ 63

-- The runs cover the clusters from `v` up to `w`, each not empty and each where the last one ends.
abbrev pub Covers : ℕ → List Run → ℕ → Type 0
Covers v [] w = v ≡ w
Covers v (r ∷ runs) w = (r.vcn ≡ v) × (0 < r.length) × LcnFits r.lcn × Covers (v + r.length) runs w

read_uint_inside :
    (buf : List ℕ) (off size : ℕ) {v : ℕ}
    → read_uint buf off size ≡ some v
    → off + size ≤ length_of buf
unfolding read_uint
read_uint_inside buf off size h = elim (Option-cases (slice buf off size)) [
  | inl e ↦ absurd (cc (e, h))
  | inr (bytes, e) ↦ (slice-length buf off size e).1
]

read_int_inside :
    (buf : List ℕ) (off size : ℕ) {v : ℤ}
    → read_int buf off size ≡ some v
    → off + size ≤ length_of buf
unfolding read_int
read_int_inside buf off size h = elim (Option-cases (read_uint buf off size)) [
  | inl e ↦ absurd (cc (e, h))
  | inr (raw, e) ↦ read_uint_inside buf off size e
]

read_lcn_ok :
    (buf : List ℕ) (start at n : ℕ) (prev : ℤ) (lcn : Option ℕ) (next : ℤ)
    → at ≤ length_of buf
    → read_lcn buf start at n prev ≡ ok (lcn, next)
    → LcnFits lcn × (at + n ≤ length_of buf)
unfolding read_lcn
read_lcn_ok buf start at zero prev lcn next inside h = ground arith
read_lcn_ok buf start at (suc n) prev lcn next inside h =
    let (delta, read, h₁) = bind-eq-ok (ok_or (read_int buf at (suc n)) (bad_run_list start)) _ h in
    let (sum, added, h₂) =
      bind-eq-ok (ok_or (checked_add_i64 prev delta) (bad_run_list start)) _ h₁ in
    let (u, kept, h₃) = bind-eq-ok (reject (ltb 0 (neg_part sum)) (bad_run_list start)) _ h₂ in
    ground (
      arith,
      h₃,
      read_int_inside buf at (suc n) (ok_or-eq-ok _ _ read),
      checked_add_i64_in_range prev delta sum (ok_or-eq-ok _ _ added),
    )

-- What one round of the loop gives.
pub record Advances (buf : List ℕ) (most : Option ℕ) (c c' : Cursor) (r : Run) : Type 0 where
  pub begins : r.vcn ≡ c.vcn
  pub ends : r.vcn + r.length ≡ c'.vcn
  pub nonempty : 0 < r.length
  pub lcn_fits : LcnFits r.lcn
  pub vcn_fits : c'.vcn < 2 ^ 64
  pub under_cap : over_cap most c'.vcn ≡ false
  pub moves : c.pos + 2 ≤ c'.pos
  pub inside : c'.pos ≤ length_of buf

pub parse_run_ok :
    (buf : List ℕ) (most : Option ℕ) (header : ℕ) (c c' : Cursor) (r : Run)
    → parse_run buf most header c ≡ ok (r, c')
    → Advances buf most c c' r
unfolding parse_run checked_add_u64
parse_run_ok buf most header c c' r h =
    let start = c.pos in
    let len_size = bit_and header 0x0F in
    let off_size = header / 16 in
    let bad : NtfsError = bad_run_list start in
    let (u₁, wide, h₁) =
      bind-eq-ok (reject (len_size == 0 || ltb 8 len_size || ltb 8 off_size) bad) _ h in
    let (len, read, h₂) = bind-eq-ok (ok_or (read_uint buf (start + 1) len_size) bad) _ h₁ in
    let (p, lcn_read, h₃) =
      bind-eq-ok (read_lcn buf start (start + 1 + len_size) off_size c.prev_lcn) _ h₂ in
    let (u₂, full, h₄) = bind-eq-ok (reject (len == 0) bad) _ h₃ in
    let (vcn, added, h₅) = bind-eq-ok (ok_or (checked_add_u64 c.vcn len) bad) _ h₄ in
    let (u₃, capped, h₆) = bind-eq-ok (reject (over_cap most vcn) bad) _ h₅ in
    let here : start + 1 + len_size ≤ length_of buf =
      read_uint_inside buf (start + 1) len_size (ok_or-eq-ok _ _ read) in
    let there : LcnFits p.0 × (start + 1 + len_size + off_size ≤ length_of buf) =
      read_lcn_ok buf start (start + 1 + len_size) off_size c.prev_lcn p.0 p.1 here lcn_read in
    ground (
      arith,
      reject-eq-ok _ _ wide,
      reject-eq-ok _ _ full,
      ok_or-eq-ok _ _ added,
      reject-eq-ok _ _ capped,
      here,
      there,
      h₆,
    )

on_header_ok :
    (o : Option ℕ) (runs out : List Run) (more : ℕ → Result (List Run))
    → on_header o runs more ≡ ok out
    → (out ≡ runs) ⊎ ((h : ℕ) × (o ≡ some h) × (more h ≡ ok out))
on_header_ok none runs out more h = inl (cc)
on_header_ok (some zero) runs out more h = inl (cc)
on_header_ok (some (suc n)) runs out more h = inr (suc n, refl, h)

-- The runs that the loop adds cover the clusters from `c.vcn` on.
abbrev Extends : Option ℕ → ℕ → List Run → List Run → Type 0
Extends most v runs out =
    (tail : List Run) × (w : ℕ) × (out ≡ runs ++ tail)
    × Covers v tail w
    × (w < 2 ^ 64)
    × (over_cap most w ≡ false)

extend_one :
    (buf : List ℕ) (most : Option ℕ) (c c' : Cursor) (r : Run) (runs out : List Run)
    → Advances buf most c c' r
    → Extends most c'.vcn (runs ++ (r ∷ [])) out
    → Extends most c.vcn runs out
extend_one buf most c c' r runs out a (tail, w, e, covers, fits, under) = (
  r ∷ tail,
  w,
  e ∙ append_assoc runs (r ∷ []) tail,
  (a.begins, a.nonempty, a.lcn_fits, rw next covers),
  fits,
  under,
)
  where
    next : c.vcn + r.length ≡ c'.vcn
    next = omega arith

parse_loop_ok :
    (fuel : ℕ) (buf : List ℕ) (most : Option ℕ) (c : Cursor) (runs out : List Run)
    → c.vcn < 2 ^ 64
    → over_cap most c.vcn ≡ false
    → parse_loop fuel buf most c runs ≡ ok out
    → Extends most c.vcn runs out
unfolding parse_loop
parse_loop_ok zero buf most c runs out fits under h = cc
parse_loop_ok (suc fuel) buf most c runs out fits under h =
    elim (on_header_ok (get_elem? buf c.pos) runs out _ h) [
      | inl e ↦ ([], c.vcn, e ∙ sym (append-nil runs), refl, fits, under)
      | inr (header, e, h₁) ↦
          let ((r, c'), run, h₂) = bind-eq-ok (parse_run buf most header c) _ h₁ in
          let a : Advances buf most c c' r = parse_run_ok buf most header c c' r run in
          extend_one buf most c c' r runs out a
            (parse_loop_ok fuel buf most c' (runs ++ (r ∷ [])) out a.vcn_fits a.under_cap h₂)
    ]

over_cap-zero : (most : Option ℕ) → over_cap most 0 ≡ false
unfolding over_cap
over_cap-zero none = refl
over_cap-zero (some n) = ground arith

pub Covers-le : (runs : List Run) (v w : ℕ) → Covers v runs w → v ≤ w
Covers-le [] v w h = omega (arith, h)
Covers-le (r ∷ runs) v w (b, n, l, rest) = omega (arith, Covers-le runs (v + r.length) w rest)

Covers-count :
    (runs : List Run) (v w : ℕ) → w < 2 ^ 64 → Covers v runs w → v + cluster_count runs ≡ w
unfolding cluster_count
Covers-count [] v w fits h = omega (arith, h)
Covers-count (r ∷ runs) v w fits (b, n, l, rest) =
    omega
      (arith, Covers-count runs (v + r.length) w fits rest, Covers-le runs (v + r.length) w rest)

-- What `parse` accepts covers the clusters from 0 up to its cluster count without gap or overlap,
-- by runs that are not empty and whose LCNs are i64s that are not negative. The count does not
-- wrap, and it is within the cap that `parse` was given.
pub parse_sound :
    (buf : List ℕ) (max_clusters : Option ℕ) (runs : List Run)
    → parse buf max_clusters ≡ ok runs
    → Covers 0 runs (cluster_count runs) × (over_cap max_clusters (cluster_count runs) ≡ false)
unfolding parse
parse_sound buf most runs h =
    let (tail, w, e, covers, fits, under) =
      parse_loop_ok (length_of buf + 1) buf most start_cursor [] runs (omega arith)
        (over_cap-zero most) h in
    let covers' : Covers 0 runs w = subst (λ (x : List Run). Covers 0 x w) (sym e) covers in
    let count : w ≡ cluster_count runs = omega (arith, Covers-count runs 0 w fits covers') in
    (
      subst (λ (x : ℕ). Covers 0 runs x) count covers',
      subst (λ (x : ℕ). over_cap most x ≡ false) count under,
    )
