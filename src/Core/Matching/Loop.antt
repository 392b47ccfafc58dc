-- ===== src/Core/Matching/Loop.antt =====
-- The loop of `glob_match` finds what a glob means, in the rounds it is given.
use batuta.Base.{
  ℕ, zero, suc, ◌+◌, ◌*◌, ◌-◌, ◌≡◌, ◌<◌, ◌≤◌, refl, sym, ap, ◌∙◌, Bool, true, false, ◌||◌,
}
use batuta.Base.{Option, none, some, List, [], ◌∷◌, ◌++◌, ◌⊎◌, inl, inr, arith, Bool-cases}
use batuta.Base.{length, drop, ◌==◌, length-drop, length-append, drop-sum, All-append}
use mathlib.Core.List.{append_assoc}
use native.Mathlib.Nat.{mul-le-mul_right}
use batuta.Core.Matching.{
  to_ascii_lowercase, eq_ignore_case, same_byte, Glob, tail, at_head, star, all_stars, glob_step,
  glob_loop, glob_match,
}
use batuta.Core.Matching.Globs.{
  any_end, matches, Plain, matches-star, all_stars-matches, later-star, later-end,
}

-- A star in the pattern is like no byte of a text without stars.
pub IsApart : (ℕ → ℕ → Bool) → Type 0
IsApart same =
    (c d : ℕ) → (c == star) ≡ true → (d == star) ≡ false → (c == b'?' || same c d) ≡ false

empty : (seg : List ℕ) → length seg ≤ 0 → seg ≡ []
empty [] h = refl
empty (x ∷ seg) h = absurd (omega arith)

or_same : (b : Bool) → (b || b) ≡ b
or_same true = refl
or_same false = refl

or_false : (b : Bool) → (b || false) ≡ b
or_false true = refl
or_false false = refl

or_absorbs : (a b : Bool) → (b ≡ true → a ≡ true) → (a || b) ≡ a
or_absorbs true b h = refl
or_absorbs false true h = sym (h refl)
or_absorbs false false h = refl

length-tail : (xs : List ℕ) → length (tail xs) ≤ length xs
length-tail [] = omega arith
length-tail (x ∷ xs) = omega arith

All-tail : (xs : List ℕ) → Plain xs → Plain (tail xs)
All-tail [] h = h
All-tail (x ∷ xs) h = h.1

not_star :
    (same : ℕ → ℕ → Bool)
    → IsApart same
    → (c d : ℕ) → (d == star) ≡ false
    → (c == b'?' || same c d) ≡ true
    → (c == star) ≡ false
unfolding IsApart
not_star same apart c d plain hit = elim (Bool-cases (c == star)) [
  | inl eq ↦ cc (apart c d eq plain)
  | inr ne ↦ ne
]

module _ (same : ℕ → ℕ → Bool) (whole : Bool) (m n : ℕ) where
  -- No star was met yet.
  pub record Fresh (p t : List ℕ) : Type 0 where
    pub small_p : length p ≤ m
    pub small_t : length t ≤ n
    pub starless : Plain t
    pub known : whole ≡ matches same p t

  -- `seg`, after the last star, matched from the mark on, and nothing before the mark did.
  pub record Retry (p t after mark : List ℕ) : Type 0 where
    pub seg : List ℕ
    pub plain : Plain seg
    pub short : length seg ≤ length mark
    pub at : t ≡ drop (length seg) mark
    pub parted : after ≡ seg ++ p
    pub small_after : length after ≤ m
    pub small_mark : length mark ≤ n
    pub starless : Plain t
    pub starless_mark : Plain mark
    pub known : whole ≡ (matches same p t || any_end (matches same after) (tail mark))

  abbrev pub Knows : List ℕ → List ℕ → Option (List ℕ × List ℕ) → Type 0
  Knows p t none = Fresh p t
  Knows p t (some (after, mark)) = Retry p t after mark

  -- What is left to do.
  abbrev pub mark_of : Option (List ℕ × List ℕ) → ℕ
  mark_of none = n + 1
  mark_of (some (after, mark)) = length mark

  abbrev pub left : Glob → ℕ
  left g = mark_of g.back * (n + m + 2) + (length g.text + length g.pattern)

  data Goes (g : Glob) : Bool ⊎ Glob → Type 0 where
    answers : (answer : Bool) → whole ≡ answer → Goes g (inl answer)
    goes : (g' : Glob) → Knows g'.pattern g'.text g'.back → left g' < left g → Goes g (inr g')

  ends : (p : List ℕ) (b : Option (List ℕ × List ℕ)) → Knows p [] b → whole ≡ all_stars p
  unfolding any_end
  ends p none k = k.known ∙ sym (all_stars-matches same p)
  ends p (some (after, [])) k =
      let alone : after ≡ p = k.parted ∙ ap (λ seg. seg ++ p) (empty k.seg k.short) in
      k.known
      ∙ ap (λ a. matches same p [] || matches same a []) alone
      ∙ or_same (matches same p [])
      ∙ sym (all_stars-matches same p)
  ends p (some (after, x ∷ mark)) k =
      let used : length k.seg ≡ suc (length mark) =
        omega (arith, k.short, ap length k.at, length-drop (length k.seg) (x ∷ mark)) in
      let no_later = later-end same k.seg p mark k.plain used in
      k.known
      ∙ ap (λ a. matches same p [] || any_end (matches same a) mark) k.parted
      ∙ ap (λ b. matches same p [] || b) no_later
      ∙ or_false (matches same p [])
      ∙ sym (all_stars-matches same p)

  -- The head of the pattern takes a byte.
  takes :
      IsApart same
      → (c d : ℕ) (p t : List ℕ) (b : Option (List ℕ × List ℕ)) → (c == b'?' || same c d) ≡ true
      → Knows (c ∷ p) (d ∷ t) b
      → Knows p t b
  unfolding matches
  takes apart c d p t none hit k =
      let plain : (c == star) ≡ false = not_star same apart c d (k.starless.0) hit in
      record {
        small_p = omega (arith, k.small_p);
        small_t = omega (arith, k.small_t);
        starless = k.starless.1;
        known = k.known ∙ rw plain (rw hit refl);
      }
  takes apart c d p t (some (after, mark)) hit k =
      let plain : (c == star) ≡ false = not_star same apart c d (k.starless.0) hit in
      let inside : length t + 1 ≡ length mark - length k.seg =
        omega (arith, ap length k.at, length-drop (length k.seg) mark) in
      record {
        seg = k.seg ++ c ∷ [];
        plain = All-append (λ c. (c == star) ≡ false) k.seg (c ∷ []) k.plain (plain, tt);
        short = omega (arith, inside, k.short, length-append k.seg (c ∷ []));
        at =
            ap (drop 1) k.at
            ∙ sym (drop-sum (length k.seg) 1 mark)
            ∙ ap (λ i. drop i mark) (sym (length-append k.seg (c ∷ [])));
        parted = k.parted ∙ sym (append_assoc k.seg (c ∷ []) p);
        small_after = k.small_after;
        small_mark = k.small_mark;
        starless = k.starless.1;
        starless_mark = k.starless_mark;
        known = k.known ∙ rw plain (rw hit refl);
      }

  -- A star at the head becomes the last one.
  marks :
      (c d : ℕ) (p t : List ℕ) (b : Option (List ℕ × List ℕ))
      → (c == star) ≡ true
      → Knows (c ∷ p) (d ∷ t) b
      → Knows p (d ∷ t) (some (p, d ∷ t))
  unfolding any_end
  marks c d p t none eq k = record {
    seg = [];
    plain = tt;
    short = omega arith;
    at = refl;
    parted = refl;
    small_after = omega (arith, k.small_p);
    small_mark = k.small_t;
    starless = k.starless;
    starless_mark = k.starless;
    known = k.known ∙ matches-star same c p (d ∷ t) eq;
  }
  marks c d p t (some (after, mark)) eq k =
      let later = later-star same k.seg c p mark (d ∷ t) k.plain eq k.at in
      record {
        seg = [];
        plain = tt;
        short = omega arith;
        at = refl;
        parted = refl;
        small_after = omega (arith, k.small_after, ap length k.parted, length-append k.seg (c ∷ p));
        small_mark = omega (arith, k.small_mark, ap length k.at, length-drop (length k.seg) mark);
        starless = k.starless;
        starless_mark = k.starless;
        known =
            k.known
            ∙ ap (λ a. matches same (c ∷ p) (d ∷ t) || any_end (matches same a) (tail mark))
                k.parted
            ∙ ap (λ a. a || any_end (matches same (k.seg ++ c ∷ p)) (tail mark))
                (matches-star same c p (d ∷ t) eq)
            ∙ or_absorbs _ _ later;
      }

  -- Neither a byte nor a star: the whole match needs a later mark.
  fails :
      (p t : List ℕ) (d : ℕ)
      → at_head (λ c. c == b'?' || same c d) p ≡ false
      → at_head (λ c. c == star) p ≡ false
      → matches same p (d ∷ t) ≡ false
  unfolding matches
  fails [] t d miss plain = refl
  fails (c ∷ p) t d miss plain = rw plain (rw miss refl)

  any_end-tail_or : (f : List ℕ → Bool) (t : List ℕ) → any_end f t ≡ (f t || any_end f (tail t))
  unfolding any_end
  any_end-tail_or f [] = sym (or_same (f []))
  any_end-tail_or f (d ∷ t) = refl

  backs :
      (p t after mark : List ℕ) (d : ℕ)
      → matches same p (d ∷ t) ≡ false
      → Retry p (d ∷ t) after mark
      → Retry after (tail mark) after (tail mark)
  backs p t after mark d miss k = record {
    seg = [];
    plain = tt;
    short = omega arith;
    at = refl;
    parted = refl;
    small_after = k.small_after;
    small_mark = omega (arith, k.small_mark, length-tail mark);
    starless = All-tail mark k.starless_mark;
    starless_mark = All-tail mark k.starless_mark;
    known =
        k.known
        ∙ ap (λ b. b || any_end (matches same after) (tail mark)) miss
        ∙ any_end-tail_or (matches same after) (tail mark);
  }

  closer : (a b w x y : ℕ) → a + 1 ≤ b → x < w → a * w + x < b * w + y
  closer a b w x y h k = omega (arith, k, mul-le-mul_right w h)

  stays : (a b w x y : ℕ) → a ≤ b → x < y → a * w + x < b * w + y
  stays a b w x y h k = omega (arith, k, mul-le-mul_right w h)

  -- Back to the last star, with the mark one further.
  retries :
      (p t : List ℕ) (d : ℕ) (b : Option (List ℕ × List ℕ))
      → matches same p (d ∷ t) ≡ false
      → Knows p (d ∷ t) b
      → Goes
          (record { pattern = p; text = d ∷ t; back = b })
          (elim b [
            | none ↦ inl false
            | some (after, mark) ↦
                inr (record { pattern = after; text = tail mark; back = some (after, tail mark) })
          ])
  retries p t d none miss k = answers false (k.known ∙ miss)
  retries p t d (some (after, [])) miss k =
      absurd (omega (arith, ap length k.at, length-drop {A = ℕ} (length k.seg) []))
  retries p t d (some (after, x ∷ mark)) miss k =
      goes (record { pattern = after; text = mark; back = some (after, mark) })
        (backs p t after (x ∷ mark) d miss k)
        (closer (length mark) (length (x ∷ mark)) (n + m + 2) _ _ (omega arith)
          (omega (arith, k.small_after, k.small_mark)))

  mark_of_text : (p t : List ℕ) (b : Option (List ℕ × List ℕ)) → Knows p t b → length t ≤ mark_of b
  mark_of_text p t none k = omega (arith, k.small_t)
  mark_of_text p t (some (after, mark)) k =
      omega (arith, ap length k.at, length-drop (length k.seg) mark)

  step-Goes :
      IsApart same
      → (p t : List ℕ) (b : Option (List ℕ × List ℕ)) → Knows p t b
      → Goes
          (record { pattern = p; text = t; back = b })
          (glob_step same (record { pattern = p; text = t; back = b }))
  unfolding glob_step
  step-Goes apart p [] b k = answers (all_stars p) (ends p b k)
  step-Goes apart [] (d ∷ t) b k = retries [] t d b (fails [] t d refl refl) k
  step-Goes apart (c ∷ p) (d ∷ t) b k = elim (Bool-cases (c == b'?' || same c d)) [
    | inl hit ↦
        rw (hit, glob_step)
          (goes _ (takes apart c d p t b hit k)
            (stays (mark_of b) (mark_of b) (n + m + 2) _ _ (omega arith) (omega arith)))
    | inr miss ↦ elim (Bool-cases (c == star)) [
      | inl eq ↦
          rw (miss, glob_step)
            (rw (eq, glob_step)
              (goes _ (marks c d p t b eq k) (
                stays (length (d ∷ t)) (mark_of b) (n + m + 2) _ _
                  (mark_of_text (c ∷ p) (d ∷ t) b k) (omega arith))))
      | inr plain ↦
          rw (miss, glob_step)
            (rw (plain, glob_step) (retries (c ∷ p) t d b (fails (c ∷ p) t d miss plain) k))
    ]
  ]

  advance :
      (rounds : ℕ)
      → ((g : Glob)
          → Knows g.pattern g.text g.back
          → left g < rounds
          → glob_loop rounds same g ≡ some whole)
      → (g : Glob) (r : Bool ⊎ Glob) → Goes g r
      → left g < suc rounds
      → elim r [ inl answer ↦ some answer | inr g' ↦ glob_loop rounds same g' ] ≡ some whole
  advance rounds ih g (inl answer) (answers _ e) h = ap some (sym e)
  advance rounds ih g (inr g') (goes _ k less) h = ih g' k (omega (arith, less, h))

  pub loop-whole :
      IsApart same
      → (rounds : ℕ) (g : Glob) → Knows g.pattern g.text g.back
      → left g < rounds
      → glob_loop rounds same g ≡ some whole
  unfolding glob_loop
  loop-whole apart zero g k h = absurd (omega arith)
  loop-whole apart (suc rounds) g k h =
      advance rounds (loop-whole apart rounds) g (glob_step same g)
        (step-Goes apart g.pattern g.text g.back k) h

same_byte-IsApart : (ci : Bool) → IsApart (same_byte ci)
unfolding IsApart same_byte eq_ignore_case to_ascii_lowercase
same_byte-IsApart true c d eq ne = ground arith
same_byte-IsApart false c d eq ne = ground arith

-- On a name without a literal star, `glob_match` ends within its rounds and decides
-- what the glob means: a star stands for any bytes, a question mark for any one byte, and any other
-- byte for itself, or for either case of a letter when case is ignored.
pub glob_match-matches :
    (pattern text : List ℕ) (ci : Bool)
    → Plain text
    → glob_match pattern text ci ≡ some (matches (same_byte ci) pattern text)
unfolding glob_match
glob_match-matches pattern text ci plain =
    loop-whole (same_byte ci) (matches (same_byte ci) pattern text) (length pattern) (length text)
      (same_byte-IsApart ci)
      (suc ((length text + 1) * (length text + length pattern + 2) + length text + length pattern))
      (record { pattern = pattern; text = text; back = none })
      (record { small_p = omega arith; small_t = omega arith; starless = plain; known = refl })
      (omega arith)
