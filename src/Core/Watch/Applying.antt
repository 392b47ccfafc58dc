-- ===== src/Core/Watch/Applying.antt =====
-- The outcome of a change, and a resize, which never panics.
use batuta.Base.{
  ℕ, zero, suc, ◌+◌, ◌-◌, ◌*◌, ◌^◌, ◌≤◌, ◌<◌, ◌≡◌, refl, sym, ap, subst, ◌∙◌, arith, min,
}
use batuta.Base.{Bool, true, false, Option, none, some, List, [], ◌∷◌, ◌++◌, ◌||◌, not, ◌%◌}
use batuta.Base.{length, length-append, length-take, lt_of_get, if◌then◌else◌}
use batuta.Base.Fallible.{Returns, returns, Returns-bind, Returns-if, Returns-weaken, ◌>>=◌}
use batuta.Core.Index.{Index, node_at, update_node, propagate, resolve_record}
use batuta.Core.Index.{is_deleted, is_dir, is_excluded}
use batuta.Core.Watch.{Applied, resize_found, resized_row, size_delta, is_zero_ℤ}
use batuta.Core.Watch.{apply_resize}
use batuta.Core.Watch.{}
use batuta.Core.Watch.Steps.{IsValid, Reach, Reach-trans}
use batuta.Core.Watch.Safety.{Kept, Kept-refl, Kept-trans, Kept-IsValid, Kept-lt, Returns-node_at}
use batuta.Core.Watch.Safety.{propagate-Kept, update_node-Kept}
use batuta.Core.Watch.Safety.{FoundFits, resolve_record-Resolved}

-- Nodes that an outcome adds.
abbrev pub added : Applied → ℕ
added (Applied.created n) = 1
added _ = 0

-- The node of an outcome is one of `count`.
abbrev pub AppliedFits : ℕ → Applied → Type 0
AppliedFits count (Applied.created n) = n < count
AppliedFits count (Applied.deleted n) = n < count
AppliedFits count (Applied.resized n) = n < count
AppliedFits count (Applied.moved n) = n < count
AppliedFits count (Applied.renamed n) = n < count
AppliedFits count Applied.unknown = Unit
AppliedFits count Applied.ignored = Unit

-- What applying a change to `ix` gives.
pub record Done (ix : Index) (p : Applied × Index) : Type 0 where
  pub reach : Reach ix p.1
  pub count : length p.1.nodes ≡ length ix.nodes + added p.0
  pub names : length p.1.names ≤ length ix.names + 65535 * added p.0
  pub fits : AppliedFits (length p.1.nodes) p.0

-- Space for `n` more nodes, with the longest names.
pub record Room (n : ℕ) (ix : Index) : Type 0 where
  pub nodes : length ix.nodes + n < 2 ^ 32
  pub names : length ix.names + 65535 * n < 2 ^ 32

pub Done-kept :
    {ix ix' : Index} (x : Applied)
    → Kept ix ix'
    → added x ≡ 0
    → AppliedFits (length ix'.nodes) x
    → Done ix (x, ix')
Done-kept x k e f = record {
  reach = k.reach;
  count = omega (arith, k.count);
  names = omega (arith, k.names);
  fits = f;
}

pub Kept-Done : {a b : Index} (p : Applied × Index) → Kept a b → Done b p → Done a p
Kept-Done p k d = record {
  reach = Reach-trans k.reach d.reach;
  count = omega (arith, k.count, d.count);
  names = omega (arith, k.names, d.names);
  fits = d.fits;
}

resized_file-Kept :
    (ix : Index) (node size mtime old : ℕ)
    → IsValid ix
    → node < length ix.nodes
    → Returns (Kept ix) (
        update_node ix node (resized_row size mtime) >>= λ ix'.
        if is_zero_ℤ (size_delta size old)
        then some ix'
        else propagate ix' node (record {
          size = size_delta size old;
          alloc = size_delta size old;
          files = batuta.Base.Int.pos 0;
        }))
resized_file-Kept ix node size mtime old v h =
    Returns-bind (update_node ix node (resized_row size mtime)) _
      (update_node-Kept ix node (resized_row size mtime)
        (record { off = λ r. refl; len = λ r. refl; parent = λ r. refl }) h)
      λ ix' k.
        Returns-if (is_zero_ℤ (size_delta size old)) _ _ (λ _. returns ix' k)
          λ _.
            Returns-weaken _ (λ ix'' k'. Kept-trans k k')
              (propagate-Kept ix' node _ (Kept-IsValid k v) (Kept-lt node k h))

resize_found-Done :
    (o : Option ℕ) (size mtime : ℕ) (ix : Index)
    → IsValid ix
    → FoundFits (length ix.nodes) o
    → Returns (Done ix) (resize_found o size mtime ix)
resize_found-Done none size mtime ix v f =
    returns _ (Done-kept Applied.unknown (Kept-refl ix) refl tt)
resize_found-Done (some node) size mtime ix v f =
    Returns-bind (node_at ix node) _ (Returns-node_at ix node f) λ row e.
      Returns-if (is_deleted row || is_dir row) _ _
        (λ _. returns _ (Done-kept Applied.ignored (Kept-refl ix) refl tt))
        λ _.
          Returns-if (is_excluded row) _ _
            (λ _.
              Returns-bind (update_node ix node (λ r. record r { size = size })) _
                (update_node-Kept ix node (λ r. record r { size = size })
                  (record { off = λ r. refl; len = λ r. refl; parent = λ r. refl }) f)
                λ ix' k. returns _ (Done-kept Applied.ignored k refl tt))
            λ _.
              Returns-bind _ _ (resized_file-Kept ix node size mtime row.size v f)
                λ ix' k. returns _ (Done-kept (Applied.resized node) k refl (Kept-lt node k f))

-- An operation that resolves a record first.
pub resolved-Done :
    (ix : Index) (volume rec sequence : ℕ) (k : Option ℕ × Index → Option (Applied × Index))
    → IsValid ix
    → ((p : Option ℕ × Index)
        → Kept ix p.1
        → IsValid p.1
        → FoundFits (length p.1.nodes) p.0
        → Returns (Done p.1) (k p))
    → Returns (Done ix) (resolve_record ix volume rec sequence >>= k)
resolved-Done ix volume rec sequence k v h =
    Returns-bind (resolve_record ix volume rec sequence) k
      (resolve_record-Resolved ix volume rec sequence v)
      λ p r.
        Returns-weaken _ (λ q d. Kept-Done q r.kept d)
          (h p r.kept (Kept-IsValid r.kept v)
            (subst (λ (n : ℕ). FoundFits n p.0) (sym r.kept.count) r.found))

pub apply_resize-Done :
    (ix : Index) (volume rec sequence size mtime : ℕ)
    → IsValid ix
    → Returns (Done ix) (apply_resize ix volume rec sequence size mtime)
unfolding apply_resize
apply_resize-Done ix volume rec sequence size mtime v =
    resolved-Done ix volume rec sequence _ v λ p k v' f. resize_found-Done p.0 size mtime p.1 v' f
