-- ===== src/Ntfs/Bytes/Results.antt =====
-- Inversion of the `?` operator and of early returns.
use batuta.Base.{◌≡◌, refl, Bool, true, false, Option, none, some, ◌⊎◌, inl, inr, if◌then◌else◌}
use batuta.Ntfs.Bytes.{Result, ok, err, panic, stuck, NtfsError, ok_or, or_panic, reject, ◌>>=◌}

-- A successful `?` has a value to go on from.
pub bind-eq-ok {ℓ κ} :
    {S : Type ℓ} {T : Type κ} (first : Result S) (next : S → Result T) {t : T}
    → (first >>= next) ≡ ok t
    → (s : S) × (first ≡ ok s) × (next s ≡ ok t)
bind-eq-ok panic next h = cc
bind-eq-ok stuck next h = cc
bind-eq-ok (err why) next h = cc
bind-eq-ok (ok s) next h = (s, refl, h)

pub ok_or-eq-ok {ℓ} :
    {A : Type ℓ} (o : Option A) (e : NtfsError) {a : A} → ok_or o e ≡ ok a → o ≡ some a
ok_or-eq-ok none e h = cc
ok_or-eq-ok (some x) e h = cc

pub or_panic-eq-ok {ℓ} : {A : Type ℓ} (o : Option A) {a : A} → or_panic o ≡ ok a → o ≡ some a
or_panic-eq-ok none h = cc
or_panic-eq-ok (some x) h = cc

pub ok_injective {ℓ} : {A : Type ℓ} (a b : A) → ok a ≡ ok b → a ≡ b
ok_injective a b h = cc

pub reject-eq-ok : (b : Bool) (e : NtfsError) {u : Unit {0}} → reject b e ≡ ok u → b ≡ false
reject-eq-ok true e h = cc
reject-eq-ok false e h = refl

-- A computation that answers: with a value, or with an error that `E` holds of. It neither panics
-- nor runs out of fuel.
pub data Answers {ℓ} {A : Type ℓ} (E : NtfsError → Type 0) : Result A → Type ℓ where
  value : (a : A) → Answers E (ok a)
  error : (e : NtfsError) → E e → Answers E (err e)

pub Answers-ok_or {ℓ} :
    {A : Type ℓ} {E : NtfsError → Type 0} (o : Option A) (e : NtfsError)
    → E e
    → Answers E (ok_or o e)
Answers-ok_or none e h = error e h
Answers-ok_or (some a) e h = value a

pub Answers-reject :
    {E : NtfsError → Type 0} (b : Bool) (e : NtfsError) → E e → Answers E (reject b e)
Answers-reject true e h = error e h
Answers-reject false e h = value tt

pub Answers-reject_if :
    {E : NtfsError → Type 0} (b : Bool) (e : NtfsError) → (b ≡ true → E e) → Answers E (reject b e)
Answers-reject_if true e h = error e (h refl)
Answers-reject_if false e h = value tt

pub Answers-if {ℓ} :
    {A : Type ℓ} {E : NtfsError → Type 0} (b : Bool) (m n : Result A)
    → Answers E m
    → Answers E n
    → Answers E (if b then m else n)
Answers-if true m n hm hn = hm
Answers-if false m n hm hn = hn

pub Answers-error {ℓ} :
    {A : Type ℓ} {E : NtfsError → Type 0} (e : NtfsError) → E e → Answers {A = A} E (err e)
Answers-error e h = error e h

-- The rest of a block has only to answer after a success of its first step.
pub Answers-bind {ℓ} :
    {A B : Type ℓ} {E : NtfsError → Type 0} (m : Result A) (f : A → Result B)
    → Answers E m
    → ((a : A) → m ≡ ok a → Answers E (f a))
    → Answers E (m >>= f)
Answers-bind (ok a) f h k = k a refl
Answers-bind (err e) f (error _ h) k = error e h
Answers-bind panic f h k = elim h [ ]
Answers-bind stuck f h k = elim h [ ]

pub Answers-cases {ℓ} :
    {A : Type ℓ} {E : NtfsError → Type 0} {r : Result A}
    → Answers E r
    → ((a : A) × (r ≡ ok a)) ⊎ ((e : NtfsError) × (r ≡ err e) × E e)
Answers-cases (value a) = inl (a, refl)
Answers-cases (error e h) = inr (e, refl, h)

pub ruleset answers_rules =
    (Answers-bind, Answers-ok_or, Answers-reject, Answers-if, Answers-error, value)
