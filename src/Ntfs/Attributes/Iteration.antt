-- ===== src/Ntfs/Attributes/Iteration.antt =====
-- The iterator over attributes on any bytes: its three outcomes, and that it ends.
use batuta.Base.{ℕ, zero, suc, ◌+◌, ◌-◌, ◌*◌, ◌%◌, ◌≤◌, ◌<◌, ◌≡◌, refl, ap, ◌∙◌, arith}
use batuta.Base.{Bool, true, false, not, ◌||◌, none, some, ◌⊎◌, inl, inr}
use batuta.Base.{length, ltb, ◌==◌, Bool-cases, Option-cases}
use batuta.Ntfs.Bytes.{ok, err, bad_attribute, unwrap_or, u32_at}
use batuta.Ntfs.Bytes.Results.{Answers-cases}
use batuta.Ntfs.Attributes.{Attribute, AttrIter, Next, next, on_type, attr_end}
use batuta.Ntfs.Attributes.Reading.{Within, BodyWithin, read_attribute-Answers, read_attribute_fits}

-- The iterator stays inside its buffer.
abbrev pub IsInside : AttrIter → Type 0
IsInside it = it.limit ≤ length it.buf

-- An attribute that ends at `end` and lies inside the limit.
pub record Spans (it : AttrIter) (a : Attribute) (end : ℕ) : Type 0 where
  pub moves : it.pos + 16 ≤ end
  pub inside : end ≤ it.limit
  pub aligned : (end - it.pos) % 8 ≡ 0
  pub name_within : Within it.buf it.pos end a.name_utf16
  pub body_within : BodyWithin it.buf it.pos end a.body

abbrev pub Ends : AttrIter → Type 0
Ends it = (it' : AttrIter) × (next it ≡ (none, it')) × (next it' ≡ (none, it'))

abbrev pub Fails : AttrIter → Type 0
Fails it =
    (it' : AttrIter) × (next it ≡ (some (err (bad_attribute it.pos)), it')) × (it'.done ≡ true)

abbrev pub Yields : AttrIter → Type 0
Yields it =
    (a : Attribute) × (end : ℕ) × (next it ≡ (some (ok a), record it { pos = end }))
    × Spans it a end

next-done : (it : AttrIter) → it.done ≡ true → next it ≡ (none, it)
unfolding next
next-done it h = rw h

next-stopped :
    (it : AttrIter) → (it.done || ltb it.limit (it.pos + 8)) ≡ true → next it ≡ (none, it)
unfolding next
next-stopped it h = rw h

next-open :
    (it : AttrIter)
    → (it.done || ltb it.limit (it.pos + 8)) ≡ false
    → next it ≡ on_type (u32_at it.buf it.pos) it
unfolding next
next-open it h = rw h

abbrev bad_length : AttrIter → ℕ → Bool
bad_length it len = ltb len 16 || not (len % 8 == 0) || ltb it.limit (it.pos + len)

typed_outcome :
    (it : AttrIter) (ty : ℕ)
    → IsInside it
    → next it ≡ on_type (some ty) it
    → Ends it ⊎ Fails it ⊎ Yields it
typed_outcome it ty inside e =
    let len = unwrap_or (u32_at it.buf (it.pos + 4)) 0 in
    elim (Bool-cases (ty == attr_end)) [
      | inl last ↦
          inl (record it { done = true }, e ∙ rw last, next-done (record it { done = true }) refl)
      | inr more ↦ elim (Bool-cases (bad_length it len)) [
        | inl bad ↦ inr (inl (record it { done = true }, e ∙ rw (more, bad), refl))
        | inr good ↦
            let fits : it.pos + len ≤ it.limit = ground arith in
            elim (Answers-cases (read_attribute-Answers it.buf it.pos len ty (omega arith))) [
              | inl (a, read) ↦
                  let (same, name, body) = read_attribute_fits it.buf it.pos len ty a read in
                  inr (
                    inr (
                      a,
                      it.pos + len,
                      e ∙ rw (more, good, read),
                      record {
                        moves = ground arith;
                        inside = fits;
                        aligned = ground arith;
                        name_within = name;
                        body_within = body;
                      },
                    ))
              | inr (x, read, bad) ↦ inr (
                  inl (
                    record it { pos = it.pos + len; done = true },
                    e ∙ rw (more, good, read, bad),
                    refl,
                  ))
            ]
      ]
    ]

-- `next` ends the iteration for good, reports the attribute at `pos` as bad and ends, or yields an
-- attribute of at least 16 bytes, a multiple of 8, that ends inside the record. Its name and its
-- resident value, where they are not empty, are bytes of the record between the attribute's start and
-- its end, and so is its run list, past the 64 bytes of the header. It never indexes out of range.
pub next_outcome : (it : AttrIter) → IsInside it → Ends it ⊎ Fails it ⊎ Yields it
next_outcome it h = elim (Bool-cases (it.done || ltb it.limit (it.pos + 8))) [
  | inl stop ↦ inl (it, next-stopped it stop, next-stopped it stop)
  | inr go ↦ elim (Option-cases (u32_at it.buf it.pos)) [
    | inl e ↦ let same : next it ≡ (none, it) = next-open it go ∙ rw e in inl (it, same, same)
    | inr (ty, e) ↦ typed_outcome it ty h (next-open it go ∙ ap (λ o. on_type o it) e)
  ]
]

-- `n` calls of `next`.
unfoldable pub advance : ℕ → AttrIter → AttrIter
advance zero it = it
advance (suc n) it = advance n (next it).1

advance-end : (n : ℕ) (it : AttrIter) → next it ≡ (none, it) → advance n it ≡ it
unfolding advance
advance-end zero it h = refl
advance-end (suc n) it h = ap (λ (p : Next). advance n p.1) h ∙ advance-end n it h

advance_fixed :
    (n : ℕ) (it it' : AttrIter)
    → (next it).1 ≡ it'
    → next it' ≡ (none, it')
    → (next (advance (suc n) it)).0 ≡ none
unfolding advance
advance_fixed n it it' e stays = rw (e, advance-end n it' stays) (ap (λ (p : Next). p.0) stays)

-- After so many calls that 16 bytes for each pass the limit, every further call returns `None`:
-- the iteration ends on any bytes.
pub next-advance :
    (n : ℕ) (it : AttrIter)
    → IsInside it
    → it.limit < it.pos + 16 * n
    → (next (advance n it)).0 ≡ none
unfolding advance
next-advance zero it h k = ap (λ (p : Next). p.0) (next-stopped it (past it k))
  where
    past :
        (it : AttrIter) → it.limit < it.pos + 16 * 0 → (it.done || ltb it.limit (it.pos + 8)) ≡ true
    past it k = ground arith
next-advance (suc n) it h k = elim (next_outcome it h) [
  | inl (it', e, stays) ↦ advance_fixed n it it' (ap (λ (p : Next). p.1) e) stays
  | inr (inl (it', e, over)) ↦
      advance_fixed n it it' (ap (λ (p : Next). p.1) e) (next-done it' over)
  | inr (inr (a, end, e, spans)) ↦
      rw (advance, ap (λ (p : Next). p.1) e)
        (next-advance n (record it { pos = end }) h (omega (arith, spans.moves)))
]
