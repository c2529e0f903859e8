-- ===== src/Reader/Merge/Choice.antt =====
-- Choosing the next row among the windows.

use rosbag2_storage_rrd.Reader.{max_pair, min_pair, max_by_key, min_by_key, leb_pair}
use rosbag2_storage_rrd.Reader.Merge.{Due, KeyLe}
use rosbag2_storage_rrd.Base.{
  ◌≢◌, none, All-imp, subst, Bool-cases, if◌then◌else◌, [], Option-cases, ◌∷◌, All, Option, ℕ, List,
  some, refl, inl, false, true, ◌≡◌, arith, inr, Bool,
}
use rosbag2_storage_rrd.Reader.Windows.{SortKey}

pub KeyLe-refl : (k : SortKey) → KeyLe k k
KeyLe-refl k = inr (refl, omega arith)

pub KeyLe-trans : (k l m : SortKey) → KeyLe k l → KeyLe l m → KeyLe k m
KeyLe-trans k l m p q = omega arith

pub Due-trans : (b : Bool) (k l m : SortKey) → Due b k l → Due b l m → Due b k m
Due-trans false k l m p q = KeyLe-trans k l m p q
Due-trans true k l m p q = KeyLe-trans m l k q p

leb_pair→KeyLe : (k l : SortKey) → leb_pair k l ≡ true → KeyLe k l
leb_pair→KeyLe k l h = ground arith

leb_pair-false→KeyLe : (k l : SortKey) → leb_pair k l ≡ false → KeyLe l k
leb_pair-false→KeyLe k l h = ground arith

min_by_key-ne-none : (x : ℕ × SortKey) (xs : List (ℕ × SortKey)) → min_by_key (x ∷ xs) ≢ none
unfolding min_by_key
min_by_key-ne-none x xs = ground arith

max_by_key-ne-none : (x : ℕ × SortKey) (xs : List (ℕ × SortKey)) → max_by_key (x ∷ xs) ≢ none
unfolding max_by_key
max_by_key-ne-none x xs = ground arith

-- What holds of every element holds of the best one.
min_by_key-All {κ} :
    (P : ℕ × SortKey → Type κ) (xs : List (ℕ × SortKey)) (x : ℕ × SortKey)
    → min_by_key xs ≡ some x
    → All P xs
    → P x
unfolding min_by_key
min_by_key-All P [] x e h = cc
min_by_key-All P (y ∷ ys) x e h = elim (Option-cases (min_by_key ys)) [
  | inl n ↦ subst P (ground (arith, e, n)) h.0
  | inr (z, n) ↦ elim (Bool-cases (leb_pair y.1 z.1)) [
    | inl t ↦ subst P (ground (arith, e, n, t)) h.0
    | inr t ↦ subst P (ground (arith, e, n, t)) (min_by_key-All P ys z n h.1)
  ]
]

max_by_key-All {κ} :
    (P : ℕ × SortKey → Type κ) (xs : List (ℕ × SortKey)) (x : ℕ × SortKey)
    → max_by_key xs ≡ some x
    → All P xs
    → P x
unfolding max_by_key
max_by_key-All P [] x e h = cc
max_by_key-All P (y ∷ ys) x e h = elim (Option-cases (max_by_key ys)) [
  | inl n ↦ subst P (ground (arith, e, n)) h.0
  | inr (z, n) ↦ elim (Bool-cases (leb_pair y.1 z.1)) [
    | inl t ↦ subst P (ground (arith, e, n, t)) (max_by_key-All P ys z n h.1)
    | inr t ↦ subst P (ground (arith, e, n, t)) h.0
  ]
]

min_by_key-Due :
    (xs : List (ℕ × SortKey)) (x : ℕ × SortKey)
    → min_by_key xs ≡ some x
    → All (λ y. KeyLe x.1 y.1) xs
unfolding min_by_key
min_by_key-Due [] x e = cc
min_by_key-Due (y ∷ []) x e = let same : y ≡ x = cc in rw (← same) (KeyLe-refl y.1, tt)
min_by_key-Due (y ∷ z ∷ zs) x e = elim (Option-cases (min_by_key (z ∷ zs))) [
  | inl n ↦ absurd (min_by_key-ne-none z zs n)
  | inr (v, n) ↦
      let later = min_by_key-Due (z ∷ zs) v n in
      elim (Bool-cases (leb_pair y.1 v.1)) [
        | inl t ↦
            let same : y ≡ x = ground (arith, e, n, t) in
            subst (λ (u : ℕ × SortKey). All (λ w. KeyLe u.1 w.1) (y ∷ z ∷ zs)) same
              (
                KeyLe-refl y.1,
                All-imp (λ w. KeyLe v.1 w.1) (λ w. KeyLe y.1 w.1) (z ∷ zs)
                    (λ w p. KeyLe-trans y.1 v.1 w.1 (leb_pair→KeyLe y.1 v.1 t) p) later,
              )
        | inr t ↦
            let same : v ≡ x = ground (arith, e, n, t) in
            subst (λ (u : ℕ × SortKey). All (λ w. KeyLe u.1 w.1) (y ∷ z ∷ zs)) same
              (leb_pair-false→KeyLe y.1 v.1 t, later)
      ]
]

max_by_key-Due :
    (xs : List (ℕ × SortKey)) (x : ℕ × SortKey)
    → max_by_key xs ≡ some x
    → All (λ y. KeyLe y.1 x.1) xs
unfolding max_by_key
max_by_key-Due [] x e = cc
max_by_key-Due (y ∷ []) x e = let same : y ≡ x = cc in rw (← same) (KeyLe-refl y.1, tt)
max_by_key-Due (y ∷ z ∷ zs) x e = elim (Option-cases (max_by_key (z ∷ zs))) [
  | inl n ↦ absurd (max_by_key-ne-none z zs n)
  | inr (v, n) ↦
      let later = max_by_key-Due (z ∷ zs) v n in
      elim (Bool-cases (leb_pair y.1 v.1)) [
        | inl t ↦
            let same : v ≡ x = ground (arith, e, n, t) in
            subst (λ (u : ℕ × SortKey). All (λ w. KeyLe w.1 u.1) (y ∷ z ∷ zs)) same
              (leb_pair→KeyLe y.1 v.1 t, later)
        | inr t ↦
            let same : y ≡ x = ground (arith, e, n, t) in
            subst (λ (u : ℕ × SortKey). All (λ w. KeyLe w.1 u.1) (y ∷ z ∷ zs)) same
              (
                KeyLe-refl y.1,
                All-imp (λ w. KeyLe w.1 v.1) (λ w. KeyLe w.1 y.1) (z ∷ zs)
                    (λ w p. KeyLe-trans w.1 v.1 y.1 p (leb_pair-false→KeyLe y.1 v.1 t)) later,
              )
      ]
]

-- The choice of `next_row`: the best element by key in the direction of playback.
abbrev pub best : Bool → List (ℕ × SortKey) → Option (ℕ × SortKey)
best b xs = if b then max_by_key xs else min_by_key xs

pub best-Due :
    (b : Bool) (xs : List (ℕ × SortKey)) (x : ℕ × SortKey)
    → best b xs ≡ some x
    → All (λ y. Due b x.1 y.1) xs
best-Due true = max_by_key-Due
best-Due false = min_by_key-Due

pub best-All {κ} :
    (b : Bool) (P : ℕ × SortKey → Type κ) (xs : List (ℕ × SortKey)) (x : ℕ × SortKey)
    → best b xs ≡ some x
    → All P xs
    → P x
best-All true = max_by_key-All
best-All false = min_by_key-All

pub best-ne-none : (b : Bool) (x : ℕ × SortKey) (xs : List (ℕ × SortKey)) → best b (x ∷ xs) ≢ none
best-ne-none true = max_by_key-ne-none
best-ne-none false = min_by_key-ne-none

-- The candidate of `fill`: the head of some window.
abbrev pub candidate : Bool → List (ℕ × ℕ) → Option (ℕ × ℕ)
candidate b xs = if b then max_pair xs else min_pair xs

min_pair-All {κ} :
    (P : ℕ × ℕ → Type κ) (xs : List (ℕ × ℕ)) (x : ℕ × ℕ) → min_pair xs ≡ some x → All P xs → P x
unfolding min_pair
min_pair-All P [] x e h = cc
min_pair-All P (y ∷ ys) x e h = elim (Option-cases (min_pair ys)) [
  | inl n ↦ subst P (ground (arith, e, n)) h.0
  | inr (z, n) ↦ elim (Bool-cases (leb_pair y z)) [
    | inl t ↦ subst P (ground (arith, e, n, t)) h.0
    | inr t ↦ subst P (ground (arith, e, n, t)) (min_pair-All P ys z n h.1)
  ]
]

max_pair-All {κ} :
    (P : ℕ × ℕ → Type κ) (xs : List (ℕ × ℕ)) (x : ℕ × ℕ) → max_pair xs ≡ some x → All P xs → P x
unfolding max_pair
max_pair-All P [] x e h = cc
max_pair-All P (y ∷ ys) x e h = elim (Option-cases (max_pair ys)) [
  | inl n ↦ subst P (ground (arith, e, n)) h.0
  | inr (z, n) ↦ elim (Bool-cases (leb_pair y z)) [
    | inl t ↦ subst P (ground (arith, e, n, t)) (max_pair-All P ys z n h.1)
    | inr t ↦ subst P (ground (arith, e, n, t)) h.0
  ]
]

pub candidate-All {κ} :
    (b : Bool) (P : ℕ × ℕ → Type κ) (xs : List (ℕ × ℕ)) (x : ℕ × ℕ)
    → candidate b xs ≡ some x
    → All P xs
    → P x
candidate-All true = max_pair-All
candidate-All false = min_pair-All

candidate-ne-none : (b : Bool) (x : ℕ × ℕ) (xs : List (ℕ × ℕ)) → candidate b (x ∷ xs) ≢ none
unfolding min_pair max_pair
candidate-ne-none true x xs = ground arith
candidate-ne-none false x xs = ground arith

pub candidate-cons :
    (b : Bool) (x : ℕ × ℕ) (xs : List (ℕ × ℕ)) → (c : ℕ × ℕ) × (candidate b (x ∷ xs) ≡ some c)
candidate-cons b x xs = elim (Option-cases (candidate b (x ∷ xs))) [
  | inl e ↦ absurd (candidate-ne-none b x xs e)
  | inr found ↦ found
]
