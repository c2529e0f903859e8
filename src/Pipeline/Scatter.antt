-- ===== src/Pipeline/Scatter.antt =====
-- `scatter` lines the decoded messages up with their rows.
use rosbag2_storage_rrd.Base.{
  subst, ◌+◌, get_elem?_of_drop-cons, sym, Bool-cases, ap, drop, ◌∷◌, length, ℕ, ◌≡◌, Bool, Option,
  List, true, false, suc, none, ok, refl, inl, inr, arith, [],
}
use rosbag2_storage_rrd.Pipeline.{indices, scatter, take_indices, all_true}

abbrev pub count_true : List Bool → ℕ
count_true [] = 0
count_true (true ∷ bs) = suc (count_true bs)
count_true (false ∷ bs) = count_true bs

module _ {V : Type 0} where
  -- Row by row: the next decoded message where there is one, null elsewhere.
  abbrev pub weave : List Bool → List (Option V) → List (Option V)
  weave [] dense = []
  weave (false ∷ bs) dense = none ∷ weave bs dense
  weave (true ∷ bs) [] = []
  weave (true ∷ bs) (v ∷ dense) = v ∷ weave bs dense

  -- The messages at the rows that were decoded.
  abbrev pub unweave : List Bool → List (Option V) → List (Option V)
  unweave [] column = []
  unweave (b ∷ bs) [] = []
  unweave (false ∷ bs) (v ∷ column) = unweave bs column
  unweave (true ∷ bs) (v ∷ column) = v ∷ unweave bs column

  take_indices-weave :
      (values dense : List (Option V)) (n : ℕ) (bs : List Bool)
      → drop n values ≡ dense
      → length dense ≡ count_true bs
      → take_indices values (indices n bs) ≡ ok (weave bs dense)
  unfolding take_indices indices
  take_indices-weave values dense n [] at same = refl
  take_indices-weave values dense n (false ∷ bs) at same =
      rw (take_indices-weave values dense n bs at same) refl
  take_indices-weave values [] n (true ∷ bs) at same = absurd (omega arith)
  take_indices-weave values (v ∷ dense) n (true ∷ bs) at same =
      let (here, next) = get_elem?_of_drop-cons values n v dense at in
      let one : suc n ≡ n + 1 = omega arith in
      let behind : drop (n + 1) values ≡ dense = subst (λ k. drop k values ≡ dense) one next in
      rw (here, take_indices)
        (rw (take_indices-weave values dense (n + 1) bs behind (omega arith)) refl)

  weave-all_true :
      (dense : List (Option V)) (bs : List Bool)
      → all_true bs ≡ true
      → length dense ≡ count_true bs
      → weave bs dense ≡ dense
  weave-all_true [] [] t same = refl
  weave-all_true (v ∷ dense) [] t same = absurd (omega arith)
  weave-all_true dense (false ∷ bs) t same = cc
  weave-all_true [] (true ∷ bs) t same = refl
  weave-all_true (v ∷ dense) (true ∷ bs) t same =
      ap (◌∷◌ v) (weave-all_true dense bs t (omega arith))

  unweave-weave :
      (dense : List (Option V)) (bs : List Bool)
      → length dense ≡ count_true bs
      → unweave bs (weave bs dense) ≡ dense
  unweave-weave [] [] same = refl
  unweave-weave (v ∷ dense) [] same = absurd (omega arith)
  unweave-weave dense (false ∷ bs) same = unweave-weave dense bs same
  unweave-weave [] (true ∷ bs) same = refl
  unweave-weave (v ∷ dense) (true ∷ bs) same = ap (◌∷◌ v) (unweave-weave dense bs (omega arith))

  length-weave :
      (dense : List (Option V)) (bs : List Bool)
      → length dense ≡ count_true bs
      → length (weave bs dense) ≡ length bs
  length-weave dense [] same = refl
  length-weave dense (false ∷ bs) same = ap suc (length-weave dense bs same)
  length-weave [] (true ∷ bs) same = absurd (omega arith)
  length-weave (v ∷ dense) (true ∷ bs) same = ap suc (length-weave dense bs (omega arith))

  -- If the decoder holds one message per row that is marked decoded, `scatter` succeeds: its column has
  -- a value per row, and the values at the marked rows are the decoder's messages in their order.
  pub scatter-weave :
      (dense : List (Option V)) (bs : List Bool)
      → length dense ≡ count_true bs
      → (scatter dense bs ≡ ok (weave bs dense))
        × (length (weave bs dense) ≡ length bs)
        × (unweave bs (weave bs dense) ≡ dense)
  unfolding scatter
  scatter-weave dense bs same =
      let made : scatter dense bs ≡ ok (weave bs dense) = elim (Bool-cases (all_true bs)) [
        | inl t ↦ rw (t, scatter) (ap ok (sym (weave-all_true dense bs t same)))
        | inr t ↦ rw (t, scatter) (take_indices-weave dense dense 0 bs refl same)
      ] in
      (made, length-weave dense bs same, unweave-weave dense bs same)
