-- ===== src/Reader/Merge/Pick.antt =====
-- What `next_row` chooses among live windows is due before every row that is left.
use rosbag2_storage_rrd.Reader.Steps.{choose}
use rosbag2_storage_rrd.Reader.Merge.Choice.{
  candidate-All, best-Due, best-ne-none, best-All, best, Due-trans, candidate-cons, candidate,
}
use rosbag2_storage_rrd.Reader.Merge.Head.{moved, key_lem, rows-moved, head_lem, first}
use rosbag2_storage_rrd.Reader.Merge.{IsMerged, rows, rows_of, Due, IsLive}
use rosbag2_storage_rrd.Reader.{max_by_key, min_by_key, key, heads, Window, SortKey, Reader, keyed}
use rosbag2_storage_rrd.Replay.{CdrWriter}
use rosbag2_storage_rrd.Base.{
  some_inj, sym, All-get_elem?, ◌∙◌, ap, none, Option-cases, subst, All-append, All-imp, ◌∷◌, ◌-◌,
  ◌≡◌, All, get_elem?, ◌+◌, ◌≤◌, List, Bool, ℕ, true, false, suc, some, refl, inl, inr, arith, [],
}

-- Forward, `t` is not after `u`; in reverse, not before it.
abbrev pub TimeDue : Bool → ℕ → ℕ → Type 0
TimeDue false t u = t ≤ u
TimeDue true t u = u ≤ t

TimeDue-of_Due : (b : Bool) (k l : SortKey) → Due b k l → TimeDue b k.0 l.0
TimeDue-of_Due false k l d = omega arith
TimeDue-of_Due true k l d = omega arith

keyed-cons :
    (n : ℕ) (w : Window) (ws : List Window) (k : SortKey)
    → key w ≡ some k
    → keyed n (w ∷ ws) ≡ (n, k) ∷ keyed (n + 1) ws
unfolding keyed
keyed-cons n w ws k e = rw (e, keyed) refl

-- A keyed entry names a window, by its position, and its key.
abbrev Names : ℕ → List Window → ℕ × SortKey → Type 0
Names n ws y = (w : Window) × (get_elem? ws (y.0 - n) ≡ some w) × (key w ≡ some y.1) × (n ≤ y.0)

Names-cons :
    (n : ℕ) (v : Window) (ws : List Window) (y : ℕ × SortKey)
    → Names (n + 1) ws y
    → Names n (v ∷ ws) y
Names-cons n v ws y (w, at, k, le) =
    let shift : y.0 - n ≡ suc (y.0 - (n + 1)) = omega arith in (w, rw shift at, k, omega arith)

keyed-Names : (n : ℕ) (ws : List Window) → All (Names n ws) (keyed n ws)
unfolding keyed
keyed-Names n [] = tt
keyed-Names n (v ∷ ws) =
    let rest =
      All-imp (Names (n + 1) ws) (Names n (v ∷ ws)) (keyed (n + 1) ws) (Names-cons n v ws)
        (keyed-Names (n + 1) ws) in
    elim (Option-cases (key v)) [
      | inl e ↦ rw (e, keyed) rest
      | inr (k, e) ↦
          let here : n - n ≡ 0 = omega arith in
          rw (e, keyed) ((v, rw here refl, e, omega arith), rest)
    ]

choose_nil : (b : Bool) (r : Reader) → r.is_reverse ≡ b → r.window ≡ [] → choose r ≡ none
unfolding choose keyed min_by_key max_by_key
choose_nil false r d e = ground arith
choose_nil true r d e = ground arith

module _ (cdr : CdrWriter) (s : Reader) where
  keyed-Due :
      (b : Bool) (k : SortKey) (n : ℕ) (ws : List Window)
      → All (IsLive cdr s) ws
      → All (λ y. Due b k y.1) (keyed n ws)
      → All (λ w. Due b k (first cdr s w).0) ws
  keyed-Due b k n [] live due = tt
  keyed-Due b k n (w ∷ ws) live due =
      let both =
        subst (All (λ y. Due b k y.1)) (keyed-cons n w ws _ (key_lem cdr s w live.0.room)) due in
      (both.0, keyed-Due b k (n + 1) ws live.1 both.1)

  -- A window's rows come in their order, so its head speaks for them.
  rows-Due :
      (k : SortKey) (w : Window)
      → IsLive cdr s w
      → Due s.is_reverse k (first cdr s w).0
      → All (λ x. Due s.is_reverse k x.0) (rows cdr s w)
  rows-Due k w live d =
      let split = rows-moved cdr s w live.room in
      let merged = subst (IsMerged s.is_reverse) split live.merged in
      rw split (
        d,
        All-imp _ _ (rows cdr s (moved cdr s w))
            (λ x p. Due-trans s.is_reverse k (first cdr s w).0 x.0 d p) merged.0,
      )

  rows_of-Due :
      (k : SortKey) (ws : List Window)
      → All (IsLive cdr s) ws
      → All (λ w. Due s.is_reverse k (first cdr s w).0) ws
      → All (λ x. Due s.is_reverse k x.0) (rows_of cdr s ws)
  unfolding rows_of
  rows_of-Due k [] live due = tt
  rows_of-Due k (w ∷ ws) live due =
      All-append _ (rows cdr s w) (rows_of cdr s ws) (rows-Due k w live.0 due.0)
        (rows_of-Due k ws live.1 due.1)

  heads-TimeDue :
      (b : Bool) (k : SortKey) (ws : List Window)
      → All (IsLive cdr s) ws
      → All (λ w. Due b k (first cdr s w).0) ws
      → All (λ h. TimeDue b k.0 h.0) (heads ws)
  unfolding heads
  heads-TimeDue b k [] live due = tt
  heads-TimeDue b k (w ∷ ws) live due =
      let (send, e) = head_lem cdr s w live.0.room in
      rw (e, heads) (TimeDue-of_Due b k (first cdr s w).0 due.0, heads-TimeDue b k ws live.1 due.1)

  candidate_lem :
      (b : Bool) (w : Window) (ws : List Window)
      → IsLive cdr s w
      → (c : ℕ × ℕ) × (candidate b (heads (w ∷ ws)) ≡ some c)
  unfolding heads
  candidate_lem b w ws live =
      let (send, e) = head_lem cdr s w live.room in rw (e, heads) (candidate-cons b _ (heads ws))

  -- What `next_row` makes of the windows of a reader with the direction of `s`: nothing if there is
  -- none, otherwise the head of one, due before the rows of all and not after any head.
  pub data Picked (r : Reader) : Type 0 where
    none_left : r.window ≡ [] → choose r ≡ none → Picked r
    picked :
        (i : ℕ) (w : Window)
        → choose r ≡ some (i, w.next)
        → get_elem? r.window i ≡ some w
        → IsLive cdr s w
        → All (λ x. Due s.is_reverse (first cdr s w).0 x.0) (rows_of cdr s r.window)
        → (c : ℕ × ℕ) → candidate s.is_reverse (heads r.window) ≡ some c
        → TimeDue s.is_reverse (first cdr s w).0.0 c.0
        → Picked r

  choose-best :
      (b : Bool) (r : Reader) (x : ℕ × SortKey) {w : Window}
      → r.is_reverse ≡ b
      → best b (keyed 0 r.window) ≡ some x
      → get_elem? r.window x.0 ≡ some w
      → choose r ≡ some (x.0, w.next)
  unfolding choose
  choose-best false r x d e at = ground arith
  choose-best true r x d e at = ground arith

  pick_cons :
      (r : Reader) (v : Window) (vs : List Window)
      → r.is_reverse ≡ s.is_reverse
      → r.window ≡ v ∷ vs
      → All (IsLive cdr s) r.window
      → (x : ℕ × SortKey) → best s.is_reverse (keyed 0 r.window) ≡ some x
      → Picked r
  pick_cons r v vs d e live x found =
      let (w, at, k, le) =
        best-All s.is_reverse (Names 0 r.window) (keyed 0 r.window) x found
          (keyed-Names 0 r.window) in
      let at' : get_elem? r.window x.0 ≡ some w = ap (get_elem? r.window) (omega arith) ∙ at in
      let lively : IsLive cdr s w = All-get_elem? (IsLive cdr s) r.window x.0 live at' in
      let same : x.1 ≡ (first cdr s w).0 = some_inj (sym k ∙ key_lem cdr s w lively.room) in
      let due : All (λ u. Due s.is_reverse (first cdr s w).0 (first cdr s u).0) r.window =
        subst (λ q. All (λ u. Due s.is_reverse q (first cdr s u).0) r.window) same
          (keyed-Due s.is_reverse x.1 0 r.window live
            (best-Due s.is_reverse (keyed 0 r.window) x found)) in
      let (c, cand) = candidate_lem s.is_reverse v vs (subst (All (IsLive cdr s)) e live).0 in
      let cand' : candidate s.is_reverse (heads r.window) ≡ some c =
        ap (λ ws. candidate s.is_reverse (heads ws)) e ∙ cand in
      picked x.0 w (choose-best s.is_reverse r x d found at') at' lively
        (rows_of-Due (first cdr s w).0 r.window live due) c cand'
        (candidate-All s.is_reverse (λ h. TimeDue s.is_reverse (first cdr s w).0.0 h.0)
          (heads r.window) c cand' (heads-TimeDue s.is_reverse (first cdr s w).0 r.window live due))

  pick_windows :
      (r : Reader) (ws : List Window)
      → r.is_reverse ≡ s.is_reverse
      → r.window ≡ ws
      → All (IsLive cdr s) r.window
      → Picked r
  pick_windows r [] d e live = none_left e (choose_nil r.is_reverse r refl e)
  pick_windows r (v ∷ vs) d e live =
      let live' = subst (All (IsLive cdr s)) e live in
      let start : keyed 0 r.window ≡ (0, (first cdr s v).0) ∷ keyed 1 vs =
        ap (keyed 0) e ∙ keyed-cons 0 v vs _ (key_lem cdr s v live'.0.room) in
      elim (Option-cases (best s.is_reverse (keyed 0 r.window))) [
        | inl n ↦ absurd (
            best-ne-none s.is_reverse (0, (first cdr s v).0) (keyed 1 vs)
              (ap (best s.is_reverse) (sym start) ∙ n))
        | inr (x, found) ↦ pick_cons r v vs d e live x found
      ]

  pub pick : (r : Reader) → r.is_reverse ≡ s.is_reverse → All (IsLive cdr s) r.window → Picked r
  pick r d live = pick_windows r r.window d refl live
