-- ===== src/Shuffle/Kept.antt =====
-- The shuffle loses no row and invents none.
use mathlib.Core.List.{Perm}
use mathlib.Core.List.Perm
use nexus_zkvm.Base.{
  ℕ, Bool-cases, inl, inr, suc, ◌≡◌, refl, sym, ap, ◌∙◌, subst, arith, Bool, List, [], ◌∷◌, leb,
  length, map, length-map,
}
use nexus_zkvm.Shuffle.{SortedRow}
use nexus_zkvm.Shuffle.Level.{
  Stats, Counters, Placed, zip_bits, survey, no_stats, no_counters, unsorted_rows, sortable,
  insert_by_pos, sort_by_pos, next_row, build_level, enter, count_bit,
}

abbrev pub indices : List SortedRow → List ℕ
indices [] = []
indices (r ∷ rs) = r.idx ∷ indices rs

abbrev placed_indices : List Placed → List ℕ
placed_indices [] = []
placed_indices (p ∷ ps) = p.idx ∷ placed_indices ps

insert_by_pos-perm :
    (p : Placed) (ps : List Placed)
    → Perm (placed_indices (insert_by_pos p ps)) (p.idx ∷ placed_indices ps)
insert_by_pos-perm p [] = Perm.refl _
insert_by_pos-perm p (q ∷ qs) = elim (Bool-cases (leb p.next_pos q.next_pos)) [
  | inl before ↦ rw before (Perm.refl _)
  | inr after ↦
      rw after (Perm.trans (Perm.cons q.idx (insert_by_pos-perm p qs)) (Perm.swap p.idx q.idx _))
]

sort_by_pos-perm : (ps : List Placed) → Perm (placed_indices (sort_by_pos ps)) (placed_indices ps)
unfolding sort_by_pos
sort_by_pos-perm [] = Perm.refl []
sort_by_pos-perm (p ∷ ps) =
    Perm.trans (insert_by_pos-perm p (sort_by_pos ps)) (Perm.cons p.idx (sort_by_pos-perm ps))

indices-next_row :
    (s : Stats) (ps : List Placed) → indices (map (next_row s) ps) ≡ placed_indices ps
unfolding next_row
indices-next_row s [] = refl
indices-next_row s (p ∷ ps) = ap (◌∷◌ p.idx) (indices-next_row s ps)

indices-sortable :
    (s : Stats) (c : Counters) (prev : List SortedRow) (bits : List Bool)
    → length prev ≡ length bits
    → placed_indices (sortable (unsorted_rows s c (zip_bits prev bits)) (zip_bits prev bits))
      ≡ indices prev
unfolding unsorted_rows sortable
indices-sortable s c [] bits e = refl
indices-sortable s c (r ∷ rs) [] e = absurd (omega arith)
indices-sortable s c (r ∷ rs) (b ∷ bs) e =
    ap (◌∷◌ r.idx) (indices-sortable s (count_bit (enter c r.bucket) b) rs bs (omega arith))

-- With one bit for each row, the rows after a level have the same indices as those before it, each
-- as often.
pub build_level-perm :
    (prev : List SortedRow) (bits : List Bool)
    → length prev ≡ length bits
    → Perm (indices (build_level prev bits).1) (indices prev)
unfolding build_level
build_level-perm prev bits e =
    let rows = zip_bits prev bits in
    let s = survey no_stats rows in
    let ps = sortable (unsorted_rows s no_counters rows) rows in
    subst (λ l. Perm l (indices prev)) (sym (indices-next_row s (sort_by_pos ps)))
      (subst (Perm (placed_indices (sort_by_pos ps))) (indices-sortable s no_counters prev bits e)
        (sort_by_pos-perm ps))

length-insert_by_pos :
    (p : Placed) (ps : List Placed) → length (insert_by_pos p ps) ≡ suc (length ps)
length-insert_by_pos p [] = refl
length-insert_by_pos p (q ∷ qs) = ground (arith, length-insert_by_pos p qs)

length-sort_by_pos : (ps : List Placed) → length (sort_by_pos ps) ≡ length ps
unfolding sort_by_pos
length-sort_by_pos [] = refl
length-sort_by_pos (p ∷ ps) =
    length-insert_by_pos p (sort_by_pos ps) ∙ ap suc (length-sort_by_pos ps)

length-sortable :
    (s : Stats) (c : Counters) (prev : List SortedRow) (bits : List Bool)
    → length prev ≡ length bits
    → length (sortable (unsorted_rows s c (zip_bits prev bits)) (zip_bits prev bits)) ≡ length prev
unfolding unsorted_rows sortable
length-sortable s c [] bits e = refl
length-sortable s c (r ∷ rs) [] e = absurd (omega arith)
length-sortable s c (r ∷ rs) (b ∷ bs) e =
    ap suc (length-sortable s (count_bit (enter c r.bucket) b) rs bs (omega arith))

pub length-build_level :
    (prev : List SortedRow) (bits : List Bool)
    → length prev ≡ length bits
    → length (build_level prev bits).1 ≡ length prev
unfolding build_level
length-build_level prev bits e =
    let rows = zip_bits prev bits in
    let s = survey no_stats rows in
    let ps = sortable (unsorted_rows s no_counters rows) rows in
    length-map (next_row s) (sort_by_pos ps)
    ∙ length-sort_by_pos ps
    ∙ length-sortable s no_counters prev bits e
