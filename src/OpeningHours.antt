-- ===== src/OpeningHours.antt =====
-- Opening hours of stores (app/services/stores/opening_hours.py): the words of an expression, on Latin-1 text.
-- The regular expressions are written out as functions.
pub mod Week
pub mod Said
mod Tests
use loupe_backend.Prelude.{
  if_elim, ℕ, zero, suc, ◌+◌, ◌-◌, ◌*◌, ◌/◌, ◌%◌, ◌≤◌, ◌<◌, min, max, String, ◌≡◌, refl, sym, ap,
  subst, ◌∙◌, ◌≢◌, ◌↔◌, ◌⊎◌, inl, inr, Bool, true, false, ◌&&◌, ◌||◌, not, Option, none, some, List,
  [], ◌∷◌, ◌++◌, map, arith, str_eq, eq_iff, dec_lt, ℕ_discrete, ltb, leb, ◌==◌, if◌then◌else◌,
  is_some, ltb→lt, lt→ltb, leb→le, ==_iff, Bool-cases, Option-cases, length, take, drop,
  length-append, length-take, length-drop, All, get, put, pop, get-put, get-pop,
}
use loupe_backend.Prelude.Text.{
  Text, is_space, lstrip, rstrip, strip, split, partition, codes, has, lower, text_eq, is_digit,
}

unfoldable pub one_of : Text → List Text → Bool
unfolding text_eq
one_of t [] = false
one_of t (w ∷ ws) = text_eq t w || one_of t ws

abbrev pub day_codes : List Text
day_codes =
    codes "mo" ∷ codes "tu" ∷ codes "we" ∷ codes "th" ∷ codes "fr" ∷ codes "sa" ∷ codes "su" ∷ []

unfoldable index_of : ℕ → Text → List Text → Option ℕ
unfolding text_eq
index_of k t [] = none
index_of k t (w ∷ ws) = let rest = index_of (suc k) t ws in if text_eq t w then some k else rest

-- `_canonical_day`, as the day's position in the week.
unfoldable pub canonical_day : Text → Option ℕ
unfolding index_of lower
canonical_day t = index_of 0 (lower t) day_codes

-- `CLOSED_WORDS`, of a text with ASCII letters in lower case.
unfoldable pub is_closed_word : Text → Bool
unfolding one_of
is_closed_word t = one_of t (
    codes "off"
    ∷ codes "closed"
    ∷ codes "close"
    ∷ codes "shut"
    ∷ codes "geschlossen"
    ∷ codes "fermé"
    ∷ codes "fermÉ"
    ∷ codes "cerrado"
    ∷ [])

-- `QUALIFIER_LABELS`
unfoldable pub qualifier_label : Text → Option Text
unfolding one_of lower
qualifier_label t =
    let w = lower t in
    if text_eq w (codes "ph")
    then some (codes "Public holidays")
    else if text_eq w (codes "sh")
    then some (codes "School holidays")
    else if text_eq w (codes "easter")
    then some (codes "Easter")
    else if one_of w (codes "holiday" ∷ codes "holidays" ∷ [])
    then some (codes "Holidays")
    else none

abbrev is_clock : Text → Bool
is_clock [] = false
is_clock (a ∷ []) = false
is_clock (a ∷ b ∷ []) = false
is_clock (a ∷ b ∷ c ∷ []) = false
is_clock (a ∷ b ∷ c ∷ d ∷ []) = is_digit a && b == b':' && is_digit c && is_digit d
is_clock (a ∷ b ∷ c ∷ d ∷ e ∷ []) =
    is_digit a && is_digit b && c == b':' && is_digit d && is_digit e
is_clock (a ∷ b ∷ c ∷ d ∷ e ∷ f ∷ t) = false

unfoldable pub is_time_point : Text → Bool
unfolding one_of lower
is_time_point t =
    is_clock t
    || one_of (lower t) (codes "sunrise" ∷ codes "sunset" ∷ codes "dawn" ∷ codes "dusk" ∷ [])

abbrev is_range : Text × Bool × Text → Bool
is_range (from, found, to) = found && is_time_point (rstrip from) && is_time_point (lstrip to)

abbrev is_open_end : Text × Bool × Text → Bool
is_open_end (from, found, []) = found && is_time_point (rstrip from)
is_open_end (from, found, c ∷ cs) = false

-- `_TIME_SPAN`, of a text with no space at its ends.
unfoldable pub is_time_span : Text → Bool
unfolding is_time_point partition lstrip rstrip
is_time_span t = is_time_point t || is_range (partition b'-' t) || is_open_end (partition b'+' t)

unfoldable pub any_time_span : List Text → Bool
unfolding is_time_span strip
any_time_span [] = false
any_time_span (p ∷ ps) = is_time_span (strip p) || any_time_span ps

-- `s.strip(",")` at the left end, and at the right.
unfoldable pub lstrip_comma : Text → Text
lstrip_comma [] = []
lstrip_comma (c ∷ cs) = let rest = lstrip_comma cs in if c == b',' then rest else c ∷ cs

abbrev unless_char : ℕ → ℕ → Text → Text
unless_char sep c [] = if c == sep then [] else c ∷ []
unless_char sep c (d ∷ ds) = c ∷ d ∷ ds

-- `s.rstrip(sep)` for one character.
unfoldable pub rstrip_char : ℕ → Text → Text
rstrip_char sep [] = []
rstrip_char sep (c ∷ cs) = unless_char sep c (rstrip_char sep cs)

unfoldable pub starts_times : Text → Bool
unfolding is_closed_word any_time_span lstrip_comma rstrip_char lower split
starts_times token =
    let cleaned = rstrip_char b',' (lstrip_comma token) in
    is_closed_word (lower cleaned) || any_time_span (split b',' cleaned)

abbrev put_char : ℕ → Bool → List Text → List Text
put_char c joined [] = (c ∷ []) ∷ []
put_char c true (w ∷ ws) = (c ∷ w) ∷ ws
put_char c false (w ∷ ws) = (c ∷ []) ∷ w ∷ ws

abbrev starts_word : Text → Bool
starts_word [] = false
starts_word (c ∷ cs) = not (is_space c)

-- `s.split()`
unfoldable pub words : Text → List Text
words [] = []
words (c ∷ cs) =
    let rest = words cs in if is_space c then rest else put_char c (starts_word cs) rest

-- `" ".join(words)`
unfoldable pub spaced : List Text → Text
spaced [] = []
spaced (w ∷ []) = w
spaced (w ∷ v ∷ ws) = w ++ b' ' ∷ spaced (v ∷ ws)

-- The words before the first that starts the times, and the words from there.
unfoldable pub break_times : List Text → List Text × List Text
unfolding starts_times
break_times [] = ([], [])
break_times (w ∷ ws) =
    let (before, after) = break_times ws in
    if starts_times w then ([], w ∷ ws) else (w ∷ before, after)

abbrev joined : Text → List Text × List Text → Text × Text
joined rule (before, []) = (rule, [])
joined rule (before, w ∷ ws) = (spaced before, spaced (w ∷ ws))

-- `_split_selector_and_times`
unfoldable pub split_selector_and_times : Text → Text × Text
unfolding break_times words spaced
split_selector_and_times rule = joined rule (break_times (words rule))

-- How many characters `_RULE_COMMA` matches here, after a digit, and 0 where it does not match.
abbrev is_word_char : ℕ → Bool
is_word_char c =
    is_digit c
    || leb b'A' c && leb c b'Z'
    || leb b'a' c && leb c b'z'
    || c == b'_'
    || c == 170
    || c == 181
    || c == 186
    || leb 192 c && not (c == 215) && not (c == 247)
    || c == 178
    || c == 179
    || c == 185
    || leb 188 c && leb c 190

abbrev ends_word : Text → Bool
ends_word [] = true
ends_word (c ∷ cs) = not (is_word_char c)

abbrev starts_day : Text → Bool
starts_day [] = false
starts_day (a ∷ []) = false
starts_day (a ∷ b ∷ t) = is_some (canonical_day (a ∷ b ∷ [])) && ends_word t

abbrev after_comma : Text → Text → ℕ
after_comma s [] = 0
after_comma s (c ∷ cs) =
    let rest = lstrip cs in if c == b',' && starts_day rest then length s - length rest else 0

unfoldable pub rule_comma : Text → ℕ
unfolding lstrip canonical_day
rule_comma s = after_comma s (lstrip s)

-- `_RULE_COMMA.sub("; ", text)`, with the characters of a match that are still to be dropped and whether
-- the character before is a digit.
unfoldable pub sub_commas : ℕ → Bool → Text → Text
unfolding rule_comma
sub_commas k digit [] = []
sub_commas (suc k) digit (c ∷ cs) = sub_commas k false cs
sub_commas zero digit (c ∷ cs) =
    let m = (if digit then rule_comma (c ∷ cs) else 0) in
    let rest = sub_commas (m - 1) (m == 0 && is_digit c) cs in
    if m == 0 then c ∷ rest else b';' ∷ b' ' ∷ rest
