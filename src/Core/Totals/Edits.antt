-- ===== src/Core/Totals/Edits.antt =====
-- A row that is written over: what its parent lacks afterwards.
use batuta.Base.{
  ℕ, zero, suc, ◌+◌, ◌-◌, ◌^◌, ◌≤◌, ◌≡◌, ◌≢◌, refl, sym, ap, subst, ◌∙◌, arith, bit_and, bit_or,
}
use batuta.Base.{Bool, true, false, not, ◌&&◌, ◌||◌, some, ◌⊎◌, inl, inr}
use batuta.Base.{Bool-cases, ◌==◌, if◌then◌else◌}
use batuta.Base.Bits.{bit-bit_or, bit_and-pow}
use batuta.Base.Int.{ℤ, pos, negsuc, pos_part, neg_part, as_i64, wrap_i64, ◌-ℤ◌}
use batuta.Core.Index.{
  Index, Node, node_at, put_node, is_dir, deleted, tombstone, negative, weight, neg_i64, clamp_i32,
  files_of,
}
use batuta.Core.Totals.{
  Measure, own, leaf, part, limit, is_gone, is_kept_dir, counts, share, total, Balanced, Off,
}
use batuta.Core.Totals.Sums.{some_injective, node_at-put_self, node_at-put_ne, total-put}

-- A row after a write is the written one, or another one as it was.
pub put_cases :
    (ix : Index) (g i : ℕ) (old new r : Node)
    → node_at ix g ≡ some old
    → node_at (put_node ix g new) i ≡ some r
    → ((g ≡ i) × (new ≡ r)) ⊎ ((g ≢ i) × (node_at ix i ≡ some r))
put_cases ix g i old new r at e = elim (Bool-cases (g == i)) [
  | inl same ↦
      let here : g ≡ i = ground arith in
      inl (
        here,
        some_injective _ _
            (sym (node_at-put_self ix g old new at) ∙ ap (node_at (put_node ix g new)) here ∙ e),
      )
  | inr other ↦
      let apart : g ≢ i = ground arith in inr (apart, sym (node_at-put_ne ix g i new apart) ∙ e)
]

-- A new row that holds what the old one held, as far as its totals are kept.
pub record SameOwn (m : Measure) (old new : Node) : Type 0 where
  pub kept : is_kept_dir new ≡ true → is_kept_dir old ≡ true
  pub own : is_kept_dir new ≡ true → batuta.Core.Totals.own m new ≡ batuta.Core.Totals.own m old

module _ (m : Measure) (ix : Index) (g : ℕ) (old new : Node) (at : node_at ix g ≡ some old)
    (same : SameOwn m old new) (bal : Balanced m ix) where
  still_exact :
      (i : ℕ) (r : Node)
      → node_at (put_node ix g new) i ≡ some r
      → is_kept_dir r ≡ true
      → share m i g new ≡ share m i g old
      → own m r ≡ total m (put_node ix g new) i
  still_exact i r e k s = elim (put_cases ix g i old new r at e) [
    | inl (here, eq) ↦
        let k' : is_kept_dir new ≡ true = ap is_kept_dir eq ∙ k in
        let e' : own m r ≡ own m new = ap (own m) (sym eq) in
        omega (
          arith,
          total-put m i g ix old new at,
          s,
          e',
          same.own k',
          bal.exact i old (subst (λ (x : ℕ). node_at ix x ≡ some old) here at) (same.kept k'),
        )
    | inr (apart, e') ↦ omega (arith, total-put m i g ix old new at, s, bal.exact i r e' k)
  ]

  pub write_even : ((i : ℕ) → share m i g new ≡ share m i g old) → Balanced m (put_node ix g new)
  write_even s = record { exact = λ i r e k. still_exact i r e k (s i) }

  pub write-Off :
      (p : ℕ) (z : ℤ)
      → g ≢ p
      → ((i : ℕ) → i ≢ p → share m i g new ≡ share m i g old)
      → share m p g new + neg_part z ≡ share m p g old + pos_part z
      → Off m (put_node ix g new) p z
  write-Off p z apart s h = record {
    others = λ i r e k ne. still_exact i r e k (s i ne);
    lacks = λ r e k. omega (
      arith,
      total-put m p g ix old new at,
      h,
      bal.exact p r (sym (node_at-put_ne ix g p new apart) ∙ e) k,
    );
  }

pub tombstone_gone : (row : Node) → is_gone (tombstone row) ≡ true
tombstone_gone row = either _ _ flag
  where
    flag : not (bit_and (bit_or row.flags deleted) deleted == 0) ≡ true
    flag =
        ground (arith, bit_and-pow 13 (bit_or row.flags deleted), bit-bit_or 13 row.flags deleted)

    either : (a b : Bool) → a ≡ true → (a || b) ≡ true
    either true b e = refl
    either false b e = cc

counts_gone : (m : Measure) (row : Node) → is_gone row ≡ true → counts m row ≡ 0
counts_gone m row h = first (is_gone row) h
  where
    first :
        (b : Bool) → b ≡ true → (if b then 0 else if is_dir row then own m row else leaf m row) ≡ 0
    first true e = refl
    first false e = cc

pub share_gone : (m : Measure) (dir i : ℕ) (row : Node) → is_gone row ≡ true → share m dir i row ≡ 0
share_gone m dir i row h = both (row.parent == dir && not (i == dir)) (counts_gone m row h)
  where
    both : (b : Bool) {x : ℕ} → x ≡ 0 → (if b then x else 0) ≡ 0
    both true e = e
    both false e = refl

allocated_live : (row : Node) → is_gone row ≡ false → counts Measure.allocated row ≡ row.alloc
allocated_live row h = second (is_gone row) (is_dir row) h
  where
    second :
        (a b : Bool) → a ≡ false → (if a then 0 else if b then row.alloc else row.alloc) ≡ row.alloc
    second false true e = refl
    second false false e = refl
    second true b e = cc

bytes_live : (row : Node) → is_gone row ≡ false → counts Measure.bytes row ≡ row.size
bytes_live row h = second (is_gone row) (is_dir row) h
  where
    second :
        (a b : Bool) → a ≡ false → (if a then 0 else if b then row.size else row.size) ≡ row.size
    second false true e = refl
    second false false e = refl
    second true b e = cc

files_live : (row : Node) → is_gone row ≡ false → counts Measure.files row ≡ files_of row
files_live row h = second (is_gone row) h
  where
    second : (a : Bool) → a ≡ false → (if a then 0 else files_of row) ≡ files_of row
    second false e = refl
    second true e = cc

abbrev IsInt : ℤ → (up down : ℕ) → Type 0
IsInt z up down = (pos_part z ≡ up) × (neg_part z ≡ down)

as_i64_small : (n : ℕ) → n ≤ 2 ^ 63 - 1 → IsInt (as_i64 n) n 0
unfolding as_i64
as_i64_small n h = ground arith

neg_i64_small : (n : ℕ) → n ≤ 2 ^ 63 - 1 → IsInt (neg_i64 (pos n)) 0 n
unfolding wrap_i64 ◌-ℤ◌
neg_i64_small zero h = (refl, refl)
neg_i64_small (suc n) h = ground arith

neg_as_i64_small : (n : ℕ) → n ≤ 2 ^ 63 - 1 → IsInt (neg_i64 (as_i64 n)) 0 n
neg_as_i64_small n h = subst (λ (z : ℤ). IsInt (neg_i64 z) 0 n) (sym small) (neg_i64_small n h)
  where
    small : as_i64 n ≡ pos n
    small = unfold as_i64 in ground arith

clamp_small : (z : ℤ) (n : ℕ) → n ≤ 2 ^ 31 - 1 → IsInt z 0 n → IsInt (clamp_i32 z) 0 n
clamp_small (pos k) n h (e, f) = (omega arith, omega arith)
clamp_small (negsuc k) n h (e, f) = (omega arith, omega arith)

-- What a row weighs, as a part of a delta.
pub part-negative :
    (m : Measure) (row : Node)
    → is_gone row ≡ false
    → counts m row ≤ limit m
    → (pos_part (part m (negative (weight row))) ≡ 0)
      × (neg_part (part m (negative (weight row))) ≡ counts m row)
part-negative Measure.bytes row g h =
    let e = bytes_live row g in
    subst (IsInt (neg_i64 (as_i64 row.size)) 0) (sym e) (neg_as_i64_small row.size (omega arith))
part-negative Measure.allocated row g h =
    let e = allocated_live row g in
    subst (IsInt (neg_i64 (as_i64 row.alloc)) 0) (sym e) (neg_as_i64_small row.alloc (omega arith))
part-negative Measure.files row g h =
    let e = files_live row g in
    subst (IsInt (clamp_i32 (neg_i64 (pos (files_of row)))) 0) (sym e)
      (clamp_small _ (files_of row) (omega arith) (neg_i64_small (files_of row) (omega arith)))

pub part-weight :
    (m : Measure) (row : Node)
    → is_gone row ≡ false
    → counts m row ≤ limit m
    → (pos_part (part m (weight row)) ≡ counts m row) × (neg_part (part m (weight row)) ≡ 0)
part-weight Measure.bytes row g h =
    let e = bytes_live row g in
    let (up, down) = as_i64_small row.size (omega arith) in (up ∙ sym e, down)
part-weight Measure.allocated row g h =
    let e = allocated_live row g in
    let (up, down) = as_i64_small row.alloc (omega arith) in (up ∙ sym e, down)
part-weight Measure.files row g h = let e = files_live row g in (omega arith, refl)
