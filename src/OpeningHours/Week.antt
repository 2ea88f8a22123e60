-- ===== src/OpeningHours/Week.antt =====
-- The week that an expression comes to (opening_hours.py: _expand_days and parse).
use loupe_backend.Prelude.{
  ℕ, zero, suc, ◌+◌, ◌-◌, Bool, true, false, ◌&&◌, ◌||◌, not, Option, none, some, List, [], ◌∷◌,
  ◌++◌, leb, ◌==◌, if◌then◌else◌,
}
use loupe_backend.Prelude.Text.{
  Text, lstrip, rstrip, strip, split, partition, codes, lower, text_eq,
}
use loupe_backend.Prelude.Tables.{Table, change}
use loupe_backend.OpeningHours.{
  one_of, canonical_day, is_closed_word, qualifier_label, rstrip_char, words,
  split_selector_and_times, sub_commas,
}

-- n days from day i.
unfoldable pub days_from : ℕ → ℕ → List ℕ
days_from i zero = []
days_from i (suc n) = i ∷ days_from (suc i) n

-- From one day to another, over the end of the week if the second is earlier.
unfoldable pub day_range : ℕ → ℕ → List ℕ
unfolding days_from
day_range i j =
    if leb i j then days_from i (j + 1 - i) else days_from i (7 - i) ++ days_from 0 (j + 1)

abbrev pub range_of : Option ℕ → Option ℕ → Option (List ℕ)
range_of none b = none
range_of (some i) none = none
range_of (some i) (some j) = some (day_range i j)

abbrev pub between : Text × Bool × Text → Option (List ℕ)
between (from, found, to) =
    if found then range_of (canonical_day (rstrip from)) (canonical_day (lstrip to)) else none

abbrev pub single : Option ℕ → List ℕ
single none = []
single (some d) = d ∷ []

abbrev pub or_single : Option (List ℕ) → Text → List ℕ
or_single none chunk = single (canonical_day chunk)
or_single (some ds) chunk = ds

abbrev pub later : Option Text → Text → Option Text
later none label = some label
later (some l) label = some l

abbrev pub add_part : Text → List ℕ × Option Text → List ℕ × Option Text
add_part chunk (days, qualifier) = elim (qualifier_label chunk) [
  | none ↦ (or_single (between (partition b'-' chunk)) chunk ++ days, qualifier)
  | some label ↦ (days, later qualifier label)
]

unfoldable pub expand_parts : List Text → List ℕ × Option Text
unfolding qualifier_label canonical_day day_range partition lstrip rstrip strip
expand_parts [] = ([], none)
expand_parts (p ∷ ps) = add_part (strip p) (expand_parts ps)

-- `_expand_days`
unfoldable pub expand_days : Text → List ℕ × Option Text
unfolding expand_parts split
expand_days selector = expand_parts (split b',' selector)

unfoldable no_commas : Text → Text
no_commas [] = []
no_commas (c ∷ cs) = (if c == b',' then b' ' else c) ∷ no_commas cs

-- The spans of a day's times: split at commas and spaces.
unfoldable pub spans_of : Text → List Text
unfolding words no_commas
spans_of times = words (no_commas times)

abbrev pub is_blank : Text → Bool
is_blank [] = true
is_blank (c ∷ cs) = false

abbrev pub no_days : List ℕ → Bool
no_days [] = true
no_days (d ∷ ds) = false

abbrev pub week : List ℕ
week = 0 ∷ 1 ∷ 2 ∷ 3 ∷ 4 ∷ 5 ∷ 6 ∷ []

-- A rule as the loop of `parse` reads it.
pub record Rule : Type 0 where
  pub chunk : Text
  pub times : Text
  pub day_codes : List ℕ
  pub qualifier : Option Text
  pub is_closed : Bool

abbrev pub or_week : Text → Text → List ℕ → List ℕ
or_week selector times days =
    if no_days days && is_blank (strip selector) && not (is_blank times) then week else days

unfoldable pub read_rule : Text → Rule
unfolding split_selector_and_times expand_days is_closed_word rstrip_char strip lower
read_rule chunk =
    let (selector, times) = split_selector_and_times chunk in
    let (days, label) = expand_days selector in
    record {
      chunk = chunk;
      times = times;
      day_codes = or_week selector times days;
      qualifier = label;
      is_closed = is_closed_word (rstrip_char b'.' (lower (strip times)));
    }

unfoldable pub read_rules : List Text → List Rule
unfolding read_rule rstrip_char strip
read_rules [] = []
read_rules (p ∷ ps) =
    let chunk = rstrip_char b',' (strip p) in
    let rest = read_rules ps in if is_blank chunk then rest else read_rule chunk ∷ rest

-- The rules of a text.
unfoldable pub rules_of : Text → List Rule
unfolding read_rules sub_commas split
rules_of text = read_rules (split b';' (sub_commas 0 false text))

pub record State : Type 0 where
  pub days : Table (List Text)
  pub stated : List ℕ
  pub notes : List Text

abbrev pub add_span : Text → List Text → List Text
add_span span ranges = if one_of span ranges then ranges else ranges ++ span ∷ []

unfoldable pub add_spans : List Text → List Text → List Text
unfolding one_of
add_spans [] ranges = ranges
add_spans (s ∷ ss) ranges = add_spans ss (add_span s ranges)

unfoldable pub state_days : List ℕ → Bool → List Text → State → State
unfolding add_spans change
state_days [] closed spans st = st
state_days (d ∷ ds) closed spans st = state_days ds closed spans record st {
  stated = d ∷ st.stated;
  days = (if closed then st.days else change d (add_spans spans) st.days);
}

abbrev pub note_of : Text → Rule → Text
note_of label r =
    label
    ++ (b':' ∷ b' ' ∷ [])
    ++ (if r.is_closed
        then codes "closed"
        else if is_blank r.times
        then codes "see store"
        else r.times)

abbrev pub apply_days : Rule → List ℕ → State → State
apply_days r [] st = record st { notes = st.notes ++ r.chunk ∷ [] }
apply_days r (d ∷ ds) st = state_days (d ∷ ds) r.is_closed (spans_of r.times) st

-- The body of the loop.
unfoldable pub apply_rule : Rule → State → State
unfolding state_days spans_of
apply_rule r st = elim r.qualifier [
  | none ↦ apply_days r r.day_codes st
  | some label ↦ record st { notes = st.notes ++ note_of label r ∷ [] }
]

unfoldable pub apply_rules : List Rule → State → State
unfolding apply_rule
apply_rules [] st = st
apply_rules (r ∷ rs) st = apply_rules rs (apply_rule r st)

abbrev pub blank : State
blank = record {
  days = (0, []) ∷ (1, []) ∷ (2, []) ∷ (3, []) ∷ (4, []) ∷ (5, []) ∷ (6, []) ∷ [];
  stated = [];
  notes = [];
}

-- An answer: open always, or the days with the notes.
pub data Hours : Type 0 where
  always_open : Hours
  by_day : State → Hours

abbrev is_24_7 : Text × Bool × Text → Bool
is_24_7 (a, found, b) = found && text_eq (rstrip a) (codes "24") && text_eq (lstrip b) (codes "7")

unfoldable pub is_always : Text → Bool
unfolding partition lstrip rstrip text_eq lower
is_always text = is_24_7 (partition b'/' text) || text_eq (lower text) (codes "always open")

abbrev pub no_notes : List Text → Bool
no_notes [] = true
no_notes (n ∷ ns) = false

abbrev pub or_nothing : State → Option Hours
or_nothing st = if no_days st.stated && no_notes st.notes then none else some (by_day st)

abbrev pub parse_text : Text → Option Hours
parse_text text =
    if is_blank text
    then none
    else if is_always text
    then some always_open
    else or_nothing (apply_rules (rules_of text) blank)

unfoldable pub parse : Option Text → Option Hours
unfolding strip is_always rules_of apply_rules
parse none = none
parse (some raw) = parse_text (strip raw)
