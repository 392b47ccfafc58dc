-- ===== src/Ipc/Wire/Fields.antt =====
-- Strings, optional fields and counted lists: what is written is what is read.
use Prim.Native.String.{String}
use batuta.Base.{ℕ, zero, suc, ◌-◌, ◌*◌, ◌^◌, ◌≤◌, ◌<◌, ◌%◌, ◌≡◌, refl, sym, ap, arith}
use batuta.Base.{true, false, Option, none, some, List, [], ◌∷◌, min}
use batuta.Base.{All, length, take, ltb, if◌then◌else◌}
use mathlib.Core.Path.{fun_ext}
use batuta.Base.{subst}
use batuta.Base.{length-append, length-drop}
use batuta.Core.Names.{is_utf8}
use batuta.Ipc.Wire.{
  Result, ok, err, panic, truncated, too_large, Str, Write, ◌⟫◌, Read, bind, ◌>>=◌, done, fail,
  remaining, saturating_mul,
}
use batuta.Ipc.Wire.{
  extend_from_slice, write_u32, write_u64, write_str, write_opt_str, write_opt_u64, write_each,
}
use batuta.Ipc.Wire.{
  take_bytes, read_u32, from_utf8, read_str, read_opt_str, read_opt_u64, read_count, read_each,
  max_string, max_rows,
}
use batuta.Ipc.Wire.Carrying.{
  Reads, Reads-done, Reads-then, take_bytes-Reads, Carries, Carries-bind, Carries-then,
  Carries-weaken, Carries-done, u32-Carries, u64-Carries, bool-Carries,
}

take_all : (s : Str) (n : ℕ) → length s ≤ n → take n s ≡ s
take_all [] zero h = refl
take_all [] (suc n) h = refl
take_all (x ∷ s) zero h = absurd (omega arith)
take_all (x ∷ s) (suc n) h = ap (◌∷◌ x) (take_all s n (omega arith))

-- A string that is written whole.
pub record IsStr (s : Str) : Type 0 where
  pub short : length s ≤ max_string
  pub valid : is_utf8 s ≡ true

abbrev pub IsOptStr : Option Str → Type 0
IsOptStr none = Unit {0}
IsOptStr (some s) = IsStr s

text-Carries :
    (s : Str) → IsStr s → Carries 0 (extend_from_slice s) (take_bytes (length s) >>= from_utf8) s
unfolding extend_from_slice from_utf8
text-Carries s h = record {
  bytes = s;
  enough = omega arith;
  writes = λ w. refl;
  reads = Reads-then _ _ s s s (take_bytes-Reads (length s) s refl) (rw (h.valid) (Reads-done s));
}

pub str-Carries : (s : Str) → IsStr s → Carries 4 (write_str s) read_str s
unfolding write_str read_str
str-Carries s h =
    let kept : min (length s) max_string ≡ length s = omega (arith, h.short) in
    let field : length s % 2 ^ 32 ≡ length s = omega (arith, h.short) in
    let fits : ltb max_string (length s) ≡ false = ground (arith, h.short) in
    let whole : take (length s) s ≡ s = take_all s (length s) (omega arith) in
    rw kept (
      rw (field, whole)
        (Carries-bind {n = 0} {g = extend_from_slice s} _
          (u32-Carries (length s) (omega (arith, h.short))) (rw fits (text-Carries s h))))

pub opt_str-Carries : (s : Option Str) → IsOptStr s → Carries 1 (write_opt_str s) read_opt_str s
unfolding write_opt_str read_opt_str
opt_str-Carries none h = Carries-then _ (bool-Carries false) (Reads-done none)
opt_str-Carries (some s) h = Carries-weaken (omega arith) (
    Carries-bind {g = write_str s} _ (bool-Carries true)
      (Carries-then _ (str-Carries s h) (Reads-done (some s))))

abbrev pub IsOptUint : ℕ → Option ℕ → Type 0
IsOptUint w none = Unit {0}
IsOptUint w (some v) = v < 2 ^ w

pub opt_u64-Carries : (v : Option ℕ) → IsOptUint 64 v → Carries 1 (write_opt_u64 v) read_opt_u64 v
unfolding write_opt_u64 read_opt_u64
opt_u64-Carries none h = Carries-then _ (bool-Carries false) (Reads-done none)
opt_u64-Carries (some v) h = Carries-weaken (omega arith) (
    Carries-bind {g = write_u64 v} _ (bool-Carries true)
      (Carries-then _ (u64-Carries v h) (Reads-done (some v))))

pub each-Carries :
    {A : Type 0} (least : ℕ) (f : A → Write) (p : Read A) (xs : List A)
    → All (λ x. Carries least (f x) p x) xs
    → Carries (length xs * least) (write_each f xs) (read_each p (length xs)) xs
unfolding write_each read_each
each-Carries least f p [] h = Carries-weaken (omega arith) (Carries-done [])
each-Carries least f p (x ∷ xs) h = Carries-weaken (omega arith) (
    Carries-bind {g = write_each f xs} _ h.0
      (Carries-then _ (each-Carries least f p xs h.1) (Reads-done (x ∷ xs))))

module _ {A : Type 0} (n least : ℕ) (k : ℕ → Read A) where
  backed : Read A
  backed =
      (remaining >>= λ left. if ltb left (saturating_mul n least) then fail truncated else done n)
      >>= k

  backed-Reads :
      (body : List ℕ) (b : A) → n * least ≤ length body → Reads (k n) body b → Reads backed body b
  unfolding Reads backed
  backed-Reads body b h t r rest at =
      let here : ltb (length r.buf) r.pos ≡ false = ground (arith, at.inside) in
      let left : length body ≤ length r.buf - r.pos =
        omega
          (arith, at.inside, length-drop r.pos r.buf, ap length at.left, length-append body rest) in
      let enough : ltb (length r.buf - r.pos) (saturating_mul n least) ≡ false =
        ground (arith, left, h) in
      rw here (rw enough (t r rest at))

bind_assoc :
    {A B C : Type 0} (m : Result A) (g : A → Result B) (h : B → Result C)
    → bind (bind m g) h ≡ bind m (λ a. bind (g a) h)
bind_assoc panic g h = refl
bind_assoc (err why) g h = refl
bind_assoc (ok a) g h = refl

>>=-assoc :
    {A B C : Type 0} (p : Read A) (g : A → Read B) (h : B → Read C)
    → ((p >>= g) >>= h) ≡ (p >>= λ a. g a >>= h)
>>=-assoc p g h = fun_ext λ r. bind_assoc (p r) (λ (a, r'). g a r') (λ (b, r'). h b r')

-- A counted list, after which the message ends.
pub counted-Carries :
    {A B : Type 0} (least : ℕ) (what : String) (f : A → Write) (p : Read A) (xs : List A)
    (k : List A → Read B) (b : B)
    → length xs ≤ max_rows
    → All (λ x. Carries least (f x) p x) xs
    → Reads (k xs) [] b
    → Carries 4
        (write_u32 (length xs % 2 ^ 32) ⟫ write_each f xs)
        (read_count least what >>= λ n. read_each p n >>= k)
        b
unfolding read_count backed
counted-Carries {A} {B} least what f p xs k b small h end =
    let field : length xs % 2 ^ 32 ≡ length xs = omega (arith, small) in
    let fits : ltb max_rows (length xs) ≡ false = ground (arith, small) in
    let each = each-Carries least f p xs h in
    let rest : ℕ → Read B = λ n. read_each p n >>= k in
    let body : Carries 0 (write_each f xs) (backed (length xs) least rest) b = record {
      bytes = each.bytes;
      enough = omega arith;
      writes = each.writes;
      reads =
          backed-Reads (length xs) least rest each.bytes b each.enough
            (Reads-then _ _ _ _ _ each.reads end);
    } in
    let check : ℕ → Read ℕ = λ n.
      if ltb max_rows n
      then fail (too_large what)
      else (remaining >>= λ left.
          if ltb left (saturating_mul n least) then fail truncated else done n) in
    rw field (
      subst (λ q. Carries 4 (write_u32 (length xs) ⟫ write_each f xs) q b)
        (sym (>>=-assoc read_u32 check rest))
        (Carries-bind {n = 0} {g = write_each f xs} _
          (u32-Carries (length xs) (omega (arith, small))) (rw fits body)))
