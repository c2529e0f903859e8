-- ===== src/Pipeline/Stored.antt =====
-- What a topic holds against what the recording asked for.
use rosbag2_storage_rrd.Pipeline.{matches, stored_lens, LensSet, stored}
use rosbag2_storage_rrd.Base.{
  Bool-cases, ◌∷◌, ◌&&◌, not, ◌||◌, String, ◌≡◌, Bool, Option, true, false, some, none, refl, inl,
  inr, [],
}
use rosbag2_storage_rrd.Config.{
  iter, Representations, contains, insert_into, raw, reflected, lenses,
}

-- Some lens takes the topic's messages.
abbrev pub derives : Option LensSet → String → Bool
derives none component = false
derives (some l) component = matches l.inputs component

-- No lens takes them, and their struct is forwarded in place.
abbrev pub forwards : Option LensSet → String → Bool
forwards none component = false
forwards (some l) component = not (matches l.inputs component) && l.keeps_unmatched

-- What `kept` holds with the lenses' part.
Holds : Representations → Bool → Bool → Bool → Type 0
Holds kept a b c =
    (contains kept raw ≡ a) × (contains kept reflected ≡ b) × (contains kept lenses ≡ c)

stored_lens-Holds :
    (a b : Bool) (set_ : Option LensSet) (component : String)
    → Holds
        (stored_lens set_ component (record { has_raw = a; has_reflected = b; has_lenses = false }))
        a
        (b || forwards set_ component)
        (derives set_ component)
unfolding Holds contains insert_into
stored_lens-Holds a true none component = (refl, refl, refl)
stored_lens-Holds a false none component = (refl, refl, refl)
stored_lens-Holds a true (some l) component = elim (Bool-cases (matches l.inputs component)) [
  | inl e ↦ rw e (refl, refl, refl)
  | inr e ↦ elim (Bool-cases l.keeps_unmatched) [
    | inl k ↦ rw (e, k) (refl, refl, refl)
    | inr k ↦ rw (e, k) (refl, refl, refl)
  ]
]
stored_lens-Holds a false (some l) component = elim (Bool-cases (matches l.inputs component)) [
  | inl e ↦ rw e (refl, refl, refl)
  | inr e ↦ elim (Bool-cases l.keeps_unmatched) [
    | inl k ↦ rw (e, k) (refl, refl, refl)
    | inr k ↦ rw (e, k) (refl, refl, refl)
  ]
]

stored_by :
    (a b c : Bool) (set_ : Option LensSet) (component : String)
    → Holds
        (stored (record { has_raw = a; has_reflected = b; has_lenses = c }) (some component) set_)
        a
        (b || forwards set_ component)
        (derives set_ component)
unfolding stored contains insert_into
stored_by true true c set_ component = stored_lens-Holds true true set_ component
stored_by true false c set_ component = stored_lens-Holds true false set_ component
stored_by false true c set_ component = stored_lens-Holds false true set_ component
stored_by false false c set_ component = stored_lens-Holds false false set_ component

-- What `stored` names as held by a topic. For one that can be reflected: raw iff it was asked for; the
-- struct iff it was asked for, or the lenses forward it because none takes it; and lens output iff a
-- lens takes it. For another topic: raw, and nothing else. This is what the code reports, from what
-- was asked and how the lenses are set up; whether lenses in `drop` mode leave the raw column in the
-- recording is not stated.
pub stored_lem :
    (asked : Representations) (set_ : Option LensSet) (component : String)
    → (contains (stored asked (some component) set_) raw ≡ contains asked raw)
      × (contains (stored asked (some component) set_) reflected
          ≡ (contains asked reflected || forwards set_ component))
      × (contains (stored asked (some component) set_) lenses ≡ derives set_ component)
      × (iter (stored asked none set_) ≡ raw ∷ [])
unfolding stored contains insert_into iter Holds
stored_lem asked set_ component =
    let h = stored_by asked.has_raw asked.has_reflected asked.has_lenses set_ component in
    (h.0, h.1, h.2, refl)
