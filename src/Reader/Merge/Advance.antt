-- ===== src/Reader/Merge/Advance.antt =====
-- `advance` takes the row at a window's cursor out of the rows that are left, and no other.
use native.Mathlib.Decide.{dec_lt}
use rosbag2_storage_rrd.Reader.Merge.Head.{
  head-drained, rows-drained, head_lem, rows-moved, first, moved,
}
use rosbag2_storage_rrd.Reader.Steps.{advance}
use mathlib.Core.List.{append-nil, append_assoc}
use mathlib.Core.List.{Permᴰ}
use mathlib.Core.List.Permᴰ
use rosbag2_storage_rrd.Reader.Merge.{i64_zero, row_at, IsMerged, IsLive, rows, Row, rows_of}
use rosbag2_storage_rrd.Replay.{CdrWriter}
use rosbag2_storage_rrd.Reader.{Message, i64_max, i64_min, Window, Reader, swap_remove}
use rosbag2_storage_rrd.Base.{
  get_or-get_elem?, get_elem?-lt, lt-length_of_get_elem?, get_elem?-set_self, ◌≤◌, All-set, get_or,
  subst, ◌+◌, drop_last-append, ok, ◌∙◌, All-drop_last, ap, All-get_last?, All, get_last?-cons, sym,
  set, ◌++◌, length, get_last?, drop_last, get_elem?, ◌≡◌, ◌<◌, ◌∷◌, ℕ, List, zero, suc, some, refl,
  arith, [],
}

module _ {ℓ} {A : Type ℓ} where
  -- Removing behind the head leaves the head.
  swap_remove-suc :
      (x y : A) (ys : List A) (i : ℕ)
      → swap_remove (x ∷ y ∷ ys) (suc i) ≡ x ∷ swap_remove (y ∷ ys) i
  unfolding swap_remove
  swap_remove-suc x y ys i =
      let (l, e) = get_last?-cons y ys in rw (e, swap_remove) (drop_last-set i l)
    where
      drop_last-set :
          (j : ℕ) (l : A) → drop_last (x ∷ set (y ∷ ys) j l) ≡ x ∷ drop_last (set (y ∷ ys) j l)
      drop_last-set zero l = refl
      drop_last-set (suc j) l = refl

  swap_remove-zero :
      (x y : A) (ys : List A)
      → (l : A) × (swap_remove (x ∷ y ∷ ys) 0 ≡ l ∷ drop_last (y ∷ ys))
        × (get_last? (y ∷ ys) ≡ some l)
  unfolding swap_remove
  swap_remove-zero x y ys = let (l, e) = get_last?-cons y ys in (l, rw (e, swap_remove) refl, e)

  -- The removed element need not satisfy what the others do.
  All-swap_remove {κ} :
      (P : A → Type κ) (xs : List A) (i : ℕ) (v : A)
      → i < length xs
      → All P xs
      → All P (swap_remove (set xs i v) i)
  All-swap_remove P [] i v h all = absurd (omega arith)
  All-swap_remove P (x ∷ []) zero v h all = unfold swap_remove in tt
  All-swap_remove P (x ∷ []) (suc i) v h all = absurd (omega arith)
  All-swap_remove P (x ∷ y ∷ ys) zero v h all =
      let (l, e, last) = swap_remove-zero v y ys in
      rw e (All-get_last? P (y ∷ ys) last all.1, All-drop_last P (y ∷ ys) all.1)
  All-swap_remove P (x ∷ y ∷ ys) (suc zero) v h all =
      rw (swap_remove-suc x v ys zero)
        (all.0, All-swap_remove P (y ∷ ys) zero v (omega arith) all.1)
  All-swap_remove P (x ∷ y ∷ ys) (suc (suc i)) v h all =
      rw (swap_remove-suc x y (set ys i v) (suc i))
        (all.0, All-swap_remove P (y ∷ ys) (suc i) v (omega arith) all.1)

module _ (cdr : CdrWriter) (s : Reader) where
  -- Moving the cursor of one window takes its first row out.
  set-perm :
      (ws : List Window) (i : ℕ) (w w' : Window) (x : Row)
      → get_elem? ws i ≡ some w
      → rows cdr s w ≡ x ∷ rows cdr s w'
      → Permᴰ (rows_of cdr s ws) (x ∷ rows_of cdr s (set ws i w'))
  unfolding rows_of
  set-perm [] i w w' x at e = cc
  set-perm (v ∷ ws) zero w w' x at e =
      let same : v ≡ w = cc in
      rw (ap (rows cdr s) same ∙ e) (Permᴰ.refl (x ∷ rows cdr s w' ++ rows_of cdr s ws))
  set-perm (v ∷ ws) (suc i) w w' x at e =
      Permᴰ.trans (Permᴰ.append_left (rows cdr s v) (set-perm ws i w w' x at e))
        (Permᴰ.middle x (rows cdr s v) (rows_of cdr s (set ws i w')))

  pub rows_of-push :
      (ws : List Window) (w : Window)
      → rows_of cdr s (ws ++ w ∷ []) ≡ rows_of cdr s ws ++ rows cdr s w
  unfolding rows_of
  rows_of-push [] w = append-nil (rows cdr s w)
  rows_of-push (v ∷ ws) w =
      rw (rows_of-push ws w) (sym (append_assoc (rows cdr s v) (rows_of cdr s ws) (rows cdr s w)))

  rows_of-last :
      (y : Window) (ys : List Window) (l : Window)
      → get_last? (y ∷ ys) ≡ some l
      → Permᴰ (rows_of cdr s (y ∷ ys)) (rows_of cdr s (l ∷ drop_last (y ∷ ys)))
  unfolding rows_of
  rows_of-last y ys l e =
      let split : rows_of cdr s (y ∷ ys) ≡ rows_of cdr s (drop_last (y ∷ ys)) ++ rows cdr s l =
        ap (rows_of cdr s) (drop_last-append (y ∷ ys) e) ∙ rows_of-push (drop_last (y ∷ ys)) l in
      rw split (Permᴰ.append_comm (rows_of cdr s (drop_last (y ∷ ys))) (rows cdr s l))

  -- Dropping a drained window drops no row.
  swap_remove-perm :
      (ws : List Window) (i : ℕ) (v : Window)
      → get_elem? ws i ≡ some v
      → rows cdr s v ≡ []
      → Permᴰ (rows_of cdr s ws) (rows_of cdr s (swap_remove ws i))
  unfolding rows_of
  swap_remove-perm [] i v at e = cc
  swap_remove-perm (x ∷ []) zero v at e =
      let same : x ≡ v = cc in unfold swap_remove in rw (ap (rows cdr s) same ∙ e) (Permᴰ.refl [])
  swap_remove-perm (x ∷ []) (suc i) v at e = cc
  swap_remove-perm (x ∷ y ∷ ys) zero v at e =
      let (l, shape, last) = swap_remove-zero x y ys in
      let same : x ≡ v = cc in rw (shape, ap (rows cdr s) same ∙ e) (rows_of-last y ys l last)
  swap_remove-perm (x ∷ y ∷ ys) (suc i) v at e =
      rw (swap_remove-suc x y ys i)
        (Permᴰ.append_left (rows cdr s x) (swap_remove-perm (y ∷ ys) i v at e))

  -- `advance` on a live window: its row goes, every other row stays, and what is left is live.
  pub record Advanced (r q : Reader) (x : Row) : Type 0 where
    pub windows : List Window
    pub position : ℕ
    pub moves : q ≡ record r { window = windows; position = position }
    pub perm : Permᴰ (rows_of cdr s r.window) (x ∷ rows_of cdr s windows)
    pub live : All (IsLive cdr s) windows
    pub placed : position ≡ x.0.0

  IsLive-moved :
      (w : Window)
      → IsLive cdr s w
      → w.next + 1 < length w.recv_timestamps
      → IsLive cdr s (moved cdr s w)
  IsLive-moved w live room =
      let split = rows-moved cdr s w live.room in
      record {
        room = room;
        merged = (subst (IsMerged s.is_reverse) split live.merged).1;
        timed = (subst (All λ x. (i64_min < x.0.0) × (x.0.0 < i64_max)) split live.timed).1;
        readable = (subst (All λ x. (m : Message) × (x.1 ≡ ok m)) split live.readable).1;
        info = live.info;
        topic = live.topic;
        wanted = live.wanted;
      }

  -- `advance` puts the read head at the time of the row.
  first-time :
      (r : Reader) (w : Window)
      → w.next < length w.recv_timestamps
      → get_or w.recv_timestamps w.next r.position ≡ (first cdr s w).0.0
  unfolding row_at
  first-time r w room =
      let (time, e) = get_elem?-lt w.recv_timestamps w.next room in
      get_or-get_elem? w.recv_timestamps w.next r.position e
      ∙ sym (get_or-get_elem? w.recv_timestamps w.next i64_zero e)

  pub advance-Advanced :
      (r : Reader) (i : ℕ) (w : Window)
      → get_elem? r.window i ≡ some w
      → IsLive cdr s w
      → All (IsLive cdr s) r.window
      → Advanced r (advance i r) (first cdr s w)
  advance-Advanced r i w at live all =
      let w' = moved cdr s w in
      let taken = set-perm r.window i w w' (first cdr s w) at (rows-moved cdr s w live.room) in
      elim (dec_lt (w.next + 1) (length w.recv_timestamps)) [
        | yes room ↦
            let (send, h) = head_lem cdr s w' room in
            record {
              windows = set r.window i w';
              position = get_or w.recv_timestamps w.next r.position;
              placed = first-time r w live.room;
              moves = unfold advance in rw (at, advance) (rw (h, advance) refl);
              perm = taken;
              live = All-set (IsLive cdr s) r.window i w' all (IsLive-moved w live room);
            }
        | no drained ↦
            let past : length w.recv_timestamps ≤ w.next + 1 = omega arith in
            record {
              windows = swap_remove (set r.window i w') i;
              position = get_or w.recv_timestamps w.next r.position;
              placed = first-time r w live.room;
              moves =
                  unfold advance in
                  rw (at, advance) (rw (head-drained cdr s w' past, advance) refl);
              perm = Permᴰ.trans taken (
                  Permᴰ.cons refl (
                    swap_remove-perm (set r.window i w') i w'
                      (get_elem?-set_self r.window i w' (lt-length_of_get_elem? r.window i at))
                      (rows-drained cdr s w' past)));
              live =
                  All-swap_remove (IsLive cdr s) r.window i w'
                    (lt-length_of_get_elem? r.window i at) all;
            }
      ]
