-- ===== src/Entry/Names.antt =====
-- The newline-separated names that `rrd_reader_set_filter` of lib.rs is given.
use rosbag2_storage_rrd.Base.{
  All-imp, ◌∙◌, ap, sym, All, refl, arith, ◌==◌, if◌then◌else◌, ◌≢◌, ◌≡◌, ◌∷◌, Bool, List, String,
  true, false, [],
}
use Prim.Native.Char.{Char, code}

-- The first part gets one more character.
abbrev pub prepend : Char → List String → List String
prepend c [] = String.◌∷◌ c "" ∷ []
prepend c (part ∷ parts) = String.◌∷◌ c part ∷ parts

-- `split('\n')`: there is always a part, empty ones included.
unfoldable pub split_lines : String → List String
split_lines String.[] = "" ∷ []
split_lines (String.◌∷◌ c rest) =
    let parts = split_lines rest in if code c == 10 then "" ∷ parts else prepend c parts

abbrev pub is_empty_text : String → Bool
is_empty_text String.[] = true
is_empty_text (String.◌∷◌ c rest) = false

unfoldable pub drop_empty : List String → List String
drop_empty [] = []
drop_empty (part ∷ parts) =
    let rest = drop_empty parts in if is_empty_text part then rest else part ∷ rest

-- The topics that are named.
unfoldable pub topic_names : String → List String
unfolding split_lines drop_empty
topic_names names = drop_empty (split_lines names)

-- A text that has no line feed.
abbrev pub HasNoBreak : String → Type 0
HasNoBreak String.[] = Unit
HasNoBreak (String.◌∷◌ c rest) = (code c ≢ 10) × HasNoBreak rest

-- A name that can be passed: it is not empty and stands on one line.
abbrev pub IsName : String → Type 0
IsName name = (is_empty_text name ≡ false) × HasNoBreak name

abbrev pub str_append : String → String → String
str_append String.[] t = t
str_append (String.◌∷◌ c s) t = String.◌∷◌ c (str_append s t)

pub str_append-empty : (s : String) → str_append s "" ≡ s
str_append-empty String.[] = refl
str_append-empty (String.◌∷◌ c s) = ap (String.◌∷◌ c) (str_append-empty s)

-- The text that the C++ plugin passes: it adds the topics of a filter to `joined`, and a line feed
-- in front of each if that is not empty yet.
unfoldable pub join_names : String → List String → String
join_names joined [] = joined
join_names joined (topic ∷ topics) =
    join_names (str_append (if is_empty_text joined then "" else str_append joined "\n") topic)
      topics

-- The text of parts one behind the other, each behind a line feed of its own.
abbrev tail_of : List String → String
tail_of [] = ""
tail_of (name ∷ names) = str_append "\n" (str_append name (tail_of names))

pub str_append_assoc :
    (a b c : String) → str_append (str_append a b) c ≡ str_append a (str_append b c)
str_append_assoc String.[] b c = refl
str_append_assoc (String.◌∷◌ x a) b c = ap (String.◌∷◌ x) (str_append_assoc a b c)

-- What is joined already stays in front.
join_names-tail_of :
    (joined : String) (names : List String)
    → is_empty_text joined ≡ false
    → join_names joined names ≡ str_append joined (tail_of names)
unfolding join_names
join_names-tail_of String.[] names h = cc
join_names-tail_of (String.◌∷◌ c joined) [] h = sym (str_append-empty (String.◌∷◌ c joined))
join_names-tail_of (String.◌∷◌ c joined) (name ∷ names) h =
    let j = String.◌∷◌ c joined in
    join_names-tail_of (str_append (str_append j "\n") name) names refl
    ∙ str_append_assoc (str_append j "\n") name (tail_of names)
    ∙ str_append_assoc j "\n" (str_append name (tail_of names))

split_lines-tail_of :
    (names : List String) (name : String)
    → HasNoBreak name
    → All HasNoBreak names
    → split_lines (str_append name (tail_of names)) ≡ name ∷ names
unfolding split_lines
split_lines-tail_of [] String.[] h hs = refl
split_lines-tail_of (next ∷ names) String.[] h hs =
    ap (◌∷◌ "") (split_lines-tail_of names next hs.0 hs.1)
split_lines-tail_of names (String.◌∷◌ c name) h hs =
    let other : (code c == 10) ≡ false = ground arith in
    rw other (rw (split_lines-tail_of names name h.1 hs) refl)

drop_empty-IsName : (names : List String) → All IsName names → drop_empty names ≡ names
unfolding drop_empty
drop_empty-IsName [] h = refl
drop_empty-IsName (name ∷ names) h = rw (h.0.0, drop_empty-IsName names h.1) refl

-- Names that are not empty and stand on one line, joined as the C++ plugin joins the topics of a
-- filter, are the names that `rrd_reader_set_filter` reads from the text.
pub topic_names-join_names :
    (names : List String) → All IsName names → topic_names (join_names "" names) ≡ names
unfolding topic_names join_names
topic_names-join_names [] h = refl
topic_names-join_names (name ∷ names) h =
    ap topic_names (join_names-tail_of name names h.0.0)
    ∙ ap drop_empty (split_lines-tail_of names name h.0.1 (All-imp _ _ names (λ n k. k.1) h.1))
    ∙ drop_empty-IsName (name ∷ names) h
