-- ===== src/Core/NameScan/Kept.antt =====
-- What is in a list after it was filtered, mapped, sorted or rid of duplicates.
use batuta.Base.{ℕ, ◌≡◌, refl, sym, ap, ◌∙◌, Bool, true, false, not, ◌||◌, ◌⊎◌}
use batuta.Base.{Option, some, List, [], ◌∷◌, ◌++◌, arith, Bool-cases, Option-cases, inl, inr}
use batuta.Base.{ltb, length, ◌==◌, ==_iff, if◌then◌else◌}
use batuta.Core.Scan.{Memchr, is_empty, contains_ascii_ci, find_iter_ascii_ci}
use batuta.Core.Scan.Finding.{MemchrLaws, occurs, in_list, find_iter-occurs}
use batuta.Core.Scan.Chunks.{stands-inside}
use batuta.Core.NameScan.{pick, retain, insert, sort_unstable, dedup}

in_list-insert : (k x : ℕ) (ys : List ℕ) → in_list k (insert x ys) ≡ (k == x || in_list k ys)
in_list-insert k x [] = refl
in_list-insert k x (y ∷ ys) = ground (arith, in_list-insert k x ys)

in_list-sort_unstable : (k : ℕ) (xs : List ℕ) → in_list k (sort_unstable xs) ≡ in_list k xs
in_list-sort_unstable k [] = refl
in_list-sort_unstable k (x ∷ xs) =
    in_list-insert k x (sort_unstable xs) ∙ ap (λ b. k == x || b) (in_list-sort_unstable k xs)

in_list-joined :
    (k x : ℕ) (xs : List ℕ)
    → in_list k (elim xs [ [] ↦ x ∷ [] | y ∷ ys ↦ if x == y then y ∷ ys else x ∷ y ∷ ys ])
      ≡ (k == x || in_list k xs)
in_list-joined k x [] = refl
in_list-joined k x (y ∷ ys) = ground arith

in_list-dedup : (k : ℕ) (xs : List ℕ) → in_list k (dedup xs) ≡ in_list k xs
in_list-dedup k [] = refl
in_list-dedup k (x ∷ xs) =
    in_list-joined k x (dedup xs) ∙ ap (λ b. k == x || b) (in_list-dedup k xs)

pub in_list-arranged : (k : ℕ) (xs : List ℕ) → in_list k (dedup (sort_unstable xs)) ≡ in_list k xs
in_list-arranged k xs = in_list-dedup k (sort_unstable xs) ∙ in_list-sort_unstable k xs

pub in_list-append :
    (p : ℕ) (xs ys : List ℕ) → in_list p (xs ++ ys) ≡ (in_list p xs || in_list p ys)
in_list-append p [] ys = refl
in_list-append p (x ∷ xs) ys = ground (arith, in_list-append p xs ys)

in_list-here : (x : ℕ) (xs : List ℕ) → in_list x (x ∷ xs) ≡ true
in_list-here x xs = ground arith

in_list-later : (k x : ℕ) (xs : List ℕ) → in_list k xs ≡ true → in_list k (x ∷ xs) ≡ true
in_list-later k x xs h = ground (arith, h)

in_list-cases :
    (k x : ℕ) (xs : List ℕ) → in_list k (x ∷ xs) ≡ true → (k ≡ x) ⊎ (in_list k xs ≡ true)
in_list-cases k x xs h = elim (Bool-cases (k == x)) [
  | inl eq ↦ inl ((==_iff k x).0 eq)
  | inr ne ↦ inr (rw ne at h)
]

some_eq : (a b : ℕ) → some a ≡ some b → a ≡ b
some_eq a b h = cc

pub picked-from :
    (f : ℕ → Option ℕ) (k : ℕ) (xs : List ℕ)
    → in_list k (pick f xs) ≡ true
    → (p : ℕ) × (in_list p xs ≡ true) × (f p ≡ some k)
picked-from f k [] h = cc
picked-from f k (x ∷ xs) h = elim (Option-cases (f x)) [
  | inl out ↦
      let (p, at, e) = picked-from f k xs (rw (out, in_list) at h) in
      (p, in_list-later p x xs at, e)
  | inr (y, e) ↦ elim (in_list-cases k y (pick f xs) (rw (e, in_list) at h)) [
    | inl same ↦ (x, in_list-here x xs, e ∙ ap some (sym same))
    | inr later ↦ let (p, at, e') = picked-from f k xs later in (p, in_list-later p x xs at, e')
  ]
]

pub picked :
    (f : ℕ → Option ℕ) (p k : ℕ) (xs : List ℕ)
    → in_list p xs ≡ true
    → f p ≡ some k
    → in_list k (pick f xs) ≡ true
picked f p k [] h e = cc
picked f p k (x ∷ xs) h e = elim (in_list-cases p x xs h) [
  | inl same ↦ rw (ap f (sym same) ∙ e, in_list) (in_list-here k (pick f xs))
  | inr later ↦ elim (Option-cases (f x)) [
    | inl out ↦ rw (out, in_list) (picked f p k xs later e)
    | inr (y, e') ↦ rw (e', in_list) (in_list-later k y (pick f xs) (picked f p k xs later e))
  ]
]

-- What `retain` keeps when its test never panics.
pub record Kept (test : ℕ → Option Bool) (xs out : List ℕ) : Type 0 where
  pub done : retain test xs ≡ some out
  pub kept_from : (k : ℕ) → in_list k out ≡ true → (in_list k xs ≡ true) × (test k ≡ some true)
  pub keeps : (k : ℕ) → in_list k xs ≡ true → test k ≡ some true → in_list k out ≡ true

pub retain-Kept :
    (test : ℕ → Option Bool) (xs : List ℕ)
    → ((k : ℕ) → in_list k xs ≡ true → (b : Bool) × (test k ≡ some b))
    → (out : List ℕ) × Kept test xs out
retain-Kept test [] answers =
    ([], record { done = refl; kept_from = λ k h. cc; keeps = λ k h e. h })
retain-Kept test (x ∷ xs) answers =
    let (out, rest) = retain-Kept test xs λ k h. answers k (in_list-later k x xs h) in
    let (b, e) = answers x (in_list-here x xs) in extended b e out rest
  where
    extended :
        (b : Bool)
        → test x ≡ some b
        → (out : List ℕ) → Kept test xs out
        → (all : List ℕ) × Kept test (x ∷ xs) all
    extended true e out rest = (
      x ∷ out,
      record {
        done = rw (e, rest.done) refl;
        kept_from = λ k h. elim (in_list-cases k x out h) [
          | inl same ↦ (ap (λ i. in_list i (x ∷ xs)) same ∙ in_list-here x xs, ap test same ∙ e)
          | inr later ↦ let (at, yes') = rest.kept_from k later in (in_list-later k x xs at, yes')
        ];
        keeps = λ k h yes'. elim (in_list-cases k x xs h) [
          | inl same ↦ ap (λ i. in_list i (x ∷ out)) same ∙ in_list-here x out
          | inr later ↦ in_list-later k x out (rest.keeps k later yes')
        ];
      },
    )
    extended false e out rest = (
      out,
      record {
        done = rw (e, rest.done) refl;
        kept_from = λ k h. let (at, yes') = rest.kept_from k h in (in_list-later k x xs at, yes');
        keeps = λ k h yes'. elim (in_list-cases k x xs h) [
          | inl same ↦ cc (e, ap test same, yes')
          | inr later ↦ rest.keeps k later yes'
        ];
      },
    )

module _ (m : Memchr) (laws : MemchrLaws m) (hay : List ℕ) (first : ℕ) (rest : List ℕ) where
  some_item : (xs : List ℕ) → not (is_empty xs) ≡ true → (p : ℕ) × (in_list p xs ≡ true)
  some_item [] h = cc
  some_item (x ∷ xs) h = (x, in_list-here x xs)

  not_empty : (p : ℕ) (xs : List ℕ) → in_list p xs ≡ true → not (is_empty xs) ≡ true
  not_empty p [] h = cc
  not_empty p (x ∷ xs) h = refl

  -- `contains_ascii_ci` decides whether the needle stands anywhere.
  pub contains-occurs :
      contains_ascii_ci m hay (first ∷ rest) ≡ true → (p : ℕ) × (occurs hay (first ∷ rest) p ≡ true)
  unfolding contains_ascii_ci
  contains-occurs h = elim (Bool-cases (ltb (length hay) (length (first ∷ rest)))) [
    | inl short ↦ cc (rw short at h)
    | inr fits ↦
        let (p, at) = some_item (find_iter_ascii_ci m hay first rest) (rw fits at h) in
        (p, sym (find_iter-occurs m laws hay first rest p) ∙ at)
  ]

  pub occurs-contains :
      (p : ℕ) → occurs hay (first ∷ rest) p ≡ true → contains_ascii_ci m hay (first ∷ rest) ≡ true
  unfolding contains_ascii_ci
  occurs-contains p h =
      let fits : ltb (length hay) (length (first ∷ rest)) ≡ false =
        ground (arith, stands-inside m laws hay first rest 0 p h) in
      rw fits (
        not_empty p (find_iter_ascii_ci m hay first rest)
          (find_iter-occurs m laws hay first rest p ∙ h))
