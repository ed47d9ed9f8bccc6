-- ===== src/Heart/Snapshot/Order.antt =====
-- `collect_items`: nothing that a source reported is lost, and the items stand by importance.
use mathlib.Core.List.{Perm, append-nil, perm_middle}
use mathlib.Core.List.Perm
use ansina.Prelude.{◌≤◌, List, [], ◌∷◌, ◌++◌, leb, arith, Bool-cases, inl, inr}
use ansina.Heart.Snapshot.{
  SnapshotItem, SnapshotSource, insert_item, sort_items, gather, collect_items,
}

-- Each item is at least as important as the one behind it.
abbrev pub Descends : List SnapshotItem → Type 0
Descends [] = Unit {0}
Descends (x ∷ []) = Unit {0}
Descends (x ∷ y ∷ ys) = (y.priority ≤ x.priority) × Descends (y ∷ ys)

insert_item-perm : (x : SnapshotItem) (ys : List SnapshotItem) → Perm (insert_item x ys) (x ∷ ys)
unfolding insert_item
insert_item-perm x [] = Perm.refl _
insert_item-perm x (y ∷ ys) = elim (Bool-cases (leb x.priority y.priority)) [
  | inl behind ↦ rw behind (Perm.trans (Perm.cons y (insert_item-perm x ys)) (Perm.swap x y ys))
  | inr before ↦ rw before (Perm.refl _)
]

insert_item-Descends :
    (x : SnapshotItem) (ys : List SnapshotItem) → Descends ys → Descends (insert_item x ys)
unfolding insert_item
insert_item-Descends x [] d = tt
insert_item-Descends x (y ∷ []) d = ground arith
insert_item-Descends x (y ∷ z ∷ zs) d = ground (arith, insert_item-Descends x (z ∷ zs) d.1)

sort_items-perm : (sorted xs : List SnapshotItem) → Perm (sort_items sorted xs) (sorted ++ xs)
unfolding sort_items
sort_items-perm sorted [] = rw (append-nil sorted) (Perm.refl sorted)
sort_items-perm sorted (x ∷ xs) = Perm.trans (sort_items-perm (insert_item x sorted) xs) (
    Perm.trans (Perm.append (insert_item-perm x sorted) (Perm.refl xs))
      (Perm.symm (perm_middle sorted xs)))

sort_items-Descends :
    (sorted xs : List SnapshotItem) → Descends sorted → Descends (sort_items sorted xs)
unfolding sort_items
sort_items-Descends sorted [] d = d
sort_items-Descends sorted (x ∷ xs) d =
    sort_items-Descends (insert_item x sorted) xs (insert_item-Descends x sorted d)

-- `collect_items` returns exactly the items of the sources that did not raise, each as often as it
-- was reported, the most important first.
pub collect_items_lem :
    (sources : List SnapshotSource)
    → Perm (collect_items sources) (gather sources) × Descends (collect_items sources)
unfolding collect_items
collect_items_lem sources =
    (sort_items-perm [] (gather sources), sort_items-Descends [] (gather sources) tt)
