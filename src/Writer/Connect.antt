-- ===== src/Writer/Connect.antt =====
-- `Recording::connect` of writer.rs: waiting for the server ends.
use rosbag2_storage_rrd.Base.{
  Result, inr, connect_timeout, ltb→lt, ap, ltb, Bool-cases, some_inj, ◌<◌, false, zero, suc, ◌↔◌,
  out_of_fuel, ◌≢◌, ◌≤◌, ◌≡◌, get_elem?, ℕ, List, true, some, ok, err, refl, inl, arith, [],
}
use mathlib.Core.List.{◌∷◌}
use rosbag2_storage_rrd.Writer.{SinkState, connect, connected, connecting, disconnected}

-- The sink says that it is connected, at a time when it was still waited for.
abbrev pub Connects : List (SinkState × ℕ) → Type 0
Connects [] = ⊥
Connects ((connected, elapsed) ∷ rest) = Unit
Connects ((disconnected, elapsed) ∷ rest) = ⊥
Connects ((connecting, elapsed) ∷ rest) = (elapsed < 5000000000) × Connects rest

Connects-ok : (statuses : List (SinkState × ℕ)) → Connects statuses → connect statuses ≡ ok tt
unfolding connect
Connects-ok [] h = absurd h
Connects-ok ((connected, elapsed) ∷ rest) h = refl
Connects-ok ((disconnected, elapsed) ∷ rest) h = absurd h
Connects-ok ((connecting, elapsed) ∷ rest) h =
    let early : ltb elapsed 5000000000 ≡ true = ground arith in rw early (Connects-ok rest h.1)

ok-Connects : (statuses : List (SinkState × ℕ)) → connect statuses ≡ ok tt → Connects statuses
unfolding connect
ok-Connects [] e = cc
ok-Connects ((connected, elapsed) ∷ rest) e = tt
ok-Connects ((disconnected, elapsed) ∷ rest) e = cc
ok-Connects ((connecting, elapsed) ∷ rest) e = elim (Bool-cases (ltb elapsed 5000000000)) [
  | inl early ↦ (ltb→lt elapsed 5000000000 early, ok-Connects rest (rw early at e))
  | inr late ↦
      let bad : ◌≡◌ {A = Result (Unit {0})} (err connect_timeout) (ok tt) = rw late at e in cc
]

connect-ne-fuel :
    (statuses : List (SinkState × ℕ)) (i : ℕ) (state : SinkState) (elapsed : ℕ)
    → get_elem? statuses i ≡ some (state, elapsed)
    → 5000000000 ≤ elapsed
    → connect statuses ≢ err out_of_fuel
unfolding connect
connect-ne-fuel [] i state elapsed at late e = cc
connect-ne-fuel ((connected, t) ∷ rest) i state elapsed at late e = cc
connect-ne-fuel ((disconnected, t) ∷ rest) i state elapsed at late e = cc
connect-ne-fuel ((connecting, t) ∷ rest) zero state elapsed at late e =
    let times : t ≡ elapsed = ap (λ (x : SinkState × ℕ). x.1) (some_inj at) in
    let timed_out : ltb t 5000000000 ≡ false = ground arith in
    let bad : ◌≡◌ {A = Result (Unit {0})} (err connect_timeout) (err out_of_fuel) =
      rw timed_out at e in
    cc
connect-ne-fuel ((connecting, t) ∷ rest) (suc i) state elapsed at late e =
    elim (Bool-cases (ltb t 5000000000)) [
      | inl early ↦ connect-ne-fuel rest i state elapsed at late (rw early at e)
      | inr timed_out ↦
          let bad : ◌≡◌ {A = Result (Unit {0})} (err connect_timeout) (err out_of_fuel) =
            rw timed_out at e in
          cc
    ]

-- If some status comes five seconds or more after the first: waiting for the server ends, with a
-- connection or an error of its own. It ends with the connection exactly when the sink says that it is
-- connected before it is disconnected and before it was still connecting after five seconds.
pub connect-Connects :
    (statuses : List (SinkState × ℕ)) (i : ℕ) (state : SinkState) (elapsed : ℕ)
    → get_elem? statuses i ≡ some (state, elapsed)
    → 5000000000 ≤ elapsed
    → (connect statuses ≢ err out_of_fuel) × ((connect statuses ≡ ok tt) ↔ Connects statuses)
connect-Connects statuses i state elapsed at late =
    (connect-ne-fuel statuses i state elapsed at late, (ok-Connects statuses, Connects-ok statuses))
