-- ===== src/Core/Watch/Visible.antt =====
-- A rename is visible: the name that a node reads as afterwards is the new one.
use batuta.Base.{
  ℕ, ◌%◌, ◌^◌, ◌≤◌, ◌<◌, ◌≡◌, refl, ap, ◌∙◌, arith, bit_or, Bool, true, false, ◌&&◌, some, List, [],
  ◌∷◌, ◌++◌, length, take, ◌==◌, length-append, drop-append_length,
}
use batuta.Base.Bits.{bit-bit_or, bit_and-pow}
use batuta.Base.Fallible.{Returns, returns, Returns-bind, Returns-if}
use batuta.Ntfs.Boot.{bytes_eq}
use batuta.Core.Names.{kept, is_utf8, range}
use batuta.Core.Names.Laws.{range_in, take-all, kept-whole}
use batuta.Core.Index.{
  Index, Node, NameOverrides, name_overridden, has, node_at, put_node, name, override_of,
}
use batuta.Core.Watch.{set_override, rename_node}
use batuta.Core.Totals.Sums.{node_at-put_self}
use batuta.Core.Totals.Resizing.{update_node-at}

both_true : (a b : Bool) → (a && b) ≡ true → (a ≡ true) × (b ≡ true)
both_true true b h = (refl, h)
both_true false b h = cc

bytes_eq-eq : (xs ys : List ℕ) → bytes_eq xs ys ≡ true → xs ≡ ys
unfolding bytes_eq
bytes_eq-eq [] [] h = refl
bytes_eq-eq [] (y ∷ ys) h = cc
bytes_eq-eq (x ∷ xs) [] h = cc
bytes_eq-eq (x ∷ xs) (y ∷ ys) h =
    let (first, rest) = both_true (x == y) (bytes_eq xs ys) h in
    let tails : xs ≡ ys = bytes_eq-eq xs ys rest in let heads : x ≡ y = ground arith in cc

-- The side table gives back the name that was last set.
override_of-set_override :
    (o : NameOverrides) (node : ℕ) (new_name : List ℕ)
    → length o.arena < 2 ^ 32
    → length new_name ≤ 65535
    → is_utf8 new_name ≡ true
    → override_of (set_override o node new_name) node ≡ some new_name
unfolding override_of set_override
override_of-set_override o node new_name h k valid =
    rw (found, off, len, read, whole, valid, override_of, set_override) refl
  where
    found : (node == node) ≡ true
    found = ground arith

    off : length o.arena % 2 ^ 32 ≡ length o.arena
    off = omega (arith, h)

    whole : kept new_name ≡ new_name
    whole = kept-whole new_name k

    len : length (kept new_name) % 2 ^ 16 ≡ length (kept new_name)
    len = omega (arith, ap (length {A = ℕ}) whole, k)

    read :
        range (o.arena ++ kept new_name) (length o.arena) (length (kept new_name))
        ≡ some (kept new_name)
    read =
        range_in (o.arena ++ kept new_name) (length o.arena) (length (kept new_name))
          (omega (arith, length-append o.arena (kept new_name)))
        ∙ ap (λ (s : List ℕ). some (take (length (kept new_name)) s))
            (drop-append_length o.arena (kept new_name))
        ∙ ap some (take-all (kept new_name))

overridden_flag : (f : ℕ) → has (bit_or f name_overridden) name_overridden ≡ true
overridden_flag f =
    ground (arith, bit_and-pow 14 (bit_or f name_overridden), bit-bit_or 14 f name_overridden)

name-overridden :
    (ix : Index) (node : ℕ) (row : Node) (s : List ℕ)
    → node_at ix node ≡ some row
    → has row.flags name_overridden ≡ true
    → override_of ix.overrides node ≡ some s
    → name ix node ≡ some s
unfolding name
name-overridden ix node row s at flag side = rw (at, name) (rw flag (rw side refl))

-- After a rename that is given a valid UTF-8 name of at most 65535 bytes, while the side table's
-- arena is shorter than 2^32 bytes, the node's name reads as the new one, whether it was the name
-- already or has been put aside.
pub rename_node-name :
    (ix : Index) (node : ℕ) (row : Node) (new_name : List ℕ) (has_moved : Bool)
    → node_at ix node ≡ some row
    → length ix.overrides.arena < 2 ^ 32
    → length new_name ≤ 65535
    → is_utf8 new_name ≡ true
    → Returns (λ p. name p.1 node ≡ some new_name) (rename_node ix node new_name has_moved)
unfolding rename_node put_node
rename_node-name ix node row new_name has_moved at h k valid =
    Returns-bind (name ix node) _ named λ live e.
      Returns-if (bytes_eq live new_name) _ _
        (λ same. returns _ (e ∙ ap some (bytes_eq-eq live new_name same)))
        λ _. rw (update_node-at aside node _ row (unfold node_at in at)) (
          returns _ (
            name-overridden _ node _ new_name put_at (overridden_flag row.flags)
              (override_of-set_override ix.overrides node new_name h k valid)))
  where
    aside : Index
    aside = record ix { overrides = set_override ix.overrides node new_name }

    named : Returns (λ live. name ix node ≡ some live) (name ix node)
    named = unfold name in rw at (returns _ refl)

    put_at :
        node_at (put_node aside node (record row { flags = bit_or row.flags name_overridden })) node
        ≡ some (record row { flags = bit_or row.flags name_overridden })
    put_at = node_at-put_self aside node row _ (unfold node_at in at)
