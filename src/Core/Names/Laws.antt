-- ===== src/Core/Names/Laws.antt =====
-- The arena gives back what was pushed, and a push leaves the names before it alone.
use batuta.Base.{ℕ, zero, suc, ◌+◌, ◌%◌, ◌^◌, ◌≤◌, ◌<◌, ◌≡◌, refl, sym, ap, ◌∙◌, arith, min}
use batuta.Base.{
  Bool, true, false, some, none, List, [], ◌∷◌, ◌++◌, length, take, drop, leb, if◌then◌else◌,
}
use batuta.Base.{length-append, length-take, drop-append_length}
use batuta.Core.Names.{Pushed, u16_max, kept, push, range, or_empty, bytes, get, is_utf8}

pub take-all {ℓ} : {A : Type ℓ} (xs : List A) → take (length xs) xs ≡ xs
take-all [] = refl
take-all (x ∷ xs) = ap (◌∷◌ x) (take-all xs)

take-drop_append {ℓ} :
    {A : Type ℓ} (off len : ℕ) (xs ys : List A)
    → off + len ≤ length xs
    → take len (drop off (xs ++ ys)) ≡ take len (drop off xs)
take-drop_append zero zero xs ys h = refl
take-drop_append zero (suc len) [] ys h = absurd (omega arith)
take-drop_append zero (suc len) (x ∷ xs) ys h =
    ap (◌∷◌ x) (take-drop_append zero len xs ys (omega arith))
take-drop_append (suc off) zero xs ys h = refl
take-drop_append (suc off) (suc len) [] ys h = absurd (omega arith)
take-drop_append (suc off) (suc len) (x ∷ xs) ys h =
    take-drop_append off (suc len) xs ys (omega arith)

-- A slice that lies inside the buffer.
pub range_in :
    (buf : List ℕ) (off len : ℕ)
    → off + len ≤ length buf
    → range buf off len ≡ some (take len (drop off buf))
unfolding range
range_in buf off len h = chosen (leb (off + len) (length buf)) (ground arith)
  where
    chosen :
        (b : Bool)
        → b ≡ true
        → (if b then some (take len (drop off buf)) else none) ≡ some (take len (drop off buf))
    chosen true e = refl
    chosen false e = cc

-- What was kept, and what a push leaves.
pub record Arena (buf name : List ℕ) (p : Pushed) : Type 0 where
  pub reads : bytes p.buf p.off p.len ≡ kept name
  pub keeps : (off len : ℕ) → off + len ≤ length buf → bytes p.buf off len ≡ bytes buf off len

-- While the arena is shorter than 2^32 bytes, reading a name at the offset and the length that
-- `push` returned gives its bytes, up to 65535 of them, and every slice that lay inside the arena
-- before reads as it did.
pub push-Arena : (buf name : List ℕ) → length buf < 2 ^ 32 → Arena buf name (push buf name)
unfolding push bytes
push-Arena buf name h = record {
  reads =
      ap or_empty (
        ap (λ (p : ℕ × ℕ). range (buf ++ kept name) p.0 p.1) offsets
        ∙ range_in (buf ++ kept name) (length buf) (length (kept name))
            (omega (arith, length-append buf (kept name))))
      ∙ ap (take (length (kept name))) (drop-append_length buf (kept name))
      ∙ take-all (kept name);
  keeps = λ off len k. ap or_empty (
      range_in (buf ++ kept name) off len (omega (arith, k, length-append buf (kept name)))
      ∙ ap some (take-drop_append off len buf (kept name) k)
      ∙ sym (range_in buf off len k));
}
  where
    offsets :
        Path
          (ℕ × ℕ)
          (length buf % 2 ^ 32, min (length name) u16_max % 2 ^ 16)
          (length buf, length (kept name))
    offsets = cc (small, fits)
      where
        small : length buf % 2 ^ 32 ≡ length buf
        small = omega arith

        fits : min (length name) u16_max % 2 ^ 16 ≡ length (kept name)
        fits = unfold kept in omega (arith, length-take (min (length name) u16_max) name)

-- A name of at most 65535 bytes is kept whole.
pub kept-whole : (name : List ℕ) → length name ≤ 65535 → kept name ≡ name
unfolding kept
kept-whole name h = rw (whole) (take-all name)
  where
    whole : min (length name) u16_max ≡ length name
    whole = omega arith

-- A valid UTF-8 name of at most 65535 bytes, pushed on an arena shorter than 2^32 bytes, is what
-- `get` gives at the offset and the length that `push` returned.
pub push-get :
    (buf name : List ℕ)
    → length buf < 2 ^ 32
    → length name ≤ 65535
    → is_utf8 name ≡ true
    → get (push buf name).buf (push buf name).off (push buf name).len ≡ name
unfolding get
push-get buf name h k valid =
    let read : bytes (push buf name).buf (push buf name).off (push buf name).len ≡ name =
      (push-Arena buf name h).reads ∙ kept-whole name k in
    rw (read, get) (rw valid refl)
