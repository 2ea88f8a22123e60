-- ===== src/OpeningHours/Said.antt =====
-- What the week says of a day, against the rules of the text (opening_hours.py).
use loupe_backend.Prelude.{
  if_elim, ℕ, ◌<◌, ◌≡◌, refl, sym, ap, subst, ◌∙◌, inl, inr, Bool, true, false, ◌&&◌, ◌||◌, not,
  Option, none, some, List, [], ◌∷◌, ◌++◌, arith, ◌==◌, if◌then◌else◌, is_some, ==_iff, Bool-cases,
}
use loupe_backend.Prelude.Text.{Text, strip, text_eq, text_eq→eq}
use loupe_backend.Prelude.Tables.{Table, find, change, find-change}
use loupe_backend.OpeningHours.{one_of}
use loupe_backend.OpeningHours.Week.{
  spans_of, is_blank, no_days, Rule, rules_of, State, add_span, add_spans, state_days, note_of,
  apply_days, apply_rule, apply_rules, blank, Hours, always_open, by_day, is_always, no_notes,
  parse,
}

unfoldable pub lists_day : ℕ → List ℕ → Bool
lists_day d [] = false
lists_day d (x ∷ xs) = x == d || lists_day d xs

-- Whether a rule without a qualifier names a day.
unfoldable pub names : ℕ → List Rule → Bool
unfolding lists_day
names d [] = false
names d (r ∷ rs) = not (is_some r.qualifier) && lists_day d r.day_codes || names d rs

-- Whether such a rule, and not a closing one, gives the day a span.
unfoldable pub says : ℕ → Text → List Rule → Bool
unfolding lists_day one_of
says d s [] = false
says d s (r ∷ rs) =
    not (is_some r.qualifier)
      && lists_day d r.day_codes
      && not r.is_closed
      && one_of s (spans_of r.times)
    || says d s rs

abbrev pub in_ranges : Text → Option (List Text) → Bool
in_ranges s none = false
in_ranges s (some ranges) = one_of s ranges

one_of-append :
    (s t : Text) (ts : List Text) → one_of s (ts ++ t ∷ []) ≡ (one_of s ts || text_eq s t)
unfolding one_of
one_of-append s t [] = ground arith
one_of-append s t (u ∷ ts) = ground (arith, one_of-append s t ts)

one_of-add_span :
    (s t : Text) (ts : List Text) → one_of s (add_span t ts) ≡ (one_of s ts || text_eq s t)
one_of-add_span s t ts =
    if_elim {A = List Text} (λ us. one_of s us ≡ (one_of s ts || text_eq s t)) (one_of t ts) _ _
      (λ there. known there) (λ _. one_of-append s t ts)
  where
    known : one_of t ts ≡ true → one_of s ts ≡ (one_of s ts || text_eq s t)
    known there = elim (Bool-cases (text_eq s t)) [
      | inl same ↦
          (let found : one_of s ts ≡ true = ap (λ u. one_of u ts) (text_eq→eq s t same) ∙ there in
            ground (arith, found))
      | inr other ↦ ground (arith, other)
    ]

one_of-add_spans :
    (s : Text) (ss ts : List Text) → one_of s (add_spans ss ts) ≡ (one_of s ts || one_of s ss)
unfolding add_spans one_of
one_of-add_spans s [] ts = ground arith
one_of-add_spans s (u ∷ us) ts =
    ground (arith, one_of-add_spans s us (add_span u ts), one_of-add_span s u ts)

abbrev spread : ℕ → Bool → List Text → Table (List Text) → Table (List Text)
spread x closed spans days = if closed then days else change x (add_spans spans) days

in_ranges-spread :
    (d x : ℕ) (s : Text) (closed : Bool) (spans : List Text) (days : Table (List Text))
    → is_some (find d days) ≡ true
    → is_some (find d (spread x closed spans days)) ≡ true
      × in_ranges s (find d (spread x closed spans days))
        ≡ (in_ranges s (find d days) || x == d && not closed && one_of s spans)
in_ranges-spread d x s true spans days there = (there, ground arith)
in_ranges-spread d x s false spans days there = (
  ap is_some (find-change x d (add_spans spans) days) ∙ kept (find d days) there,
  ap (in_ranges s) (find-change x d (add_spans spans) days) ∙ added (find d days) there,
)
  where
    kept :
        (o : Option (List Text))
        → is_some o ≡ true
        → is_some (elim o [ none ↦ none | some a ↦ some (if d == x then add_spans spans a else a) ])
          ≡ true
    kept none e = e
    kept (some a) e = refl

    added :
        (o : Option (List Text))
        → is_some o ≡ true
        → in_ranges s
            (elim o [ none ↦ none | some a ↦ some (if d == x then add_spans spans a else a) ])
          ≡ (in_ranges s o || x == d && true && one_of s spans)
    added none e = ground (arith, e)
    added (some a) e = ground (arith, one_of-add_spans s spans a, ==_iff d x, ==_iff x d)

-- What a state says of a day: whether it has a row, the span, and whether it is stated.
abbrev Tells : ℕ → Text → Bool → Bool → State → Type 0
Tells d s span stated st =
    is_some (find d st.days) ≡ true
    × in_ranges s (find d st.days) ≡ span
    × lists_day d st.stated ≡ stated

Tells-state_days :
    (d : ℕ) (s : Text) (ds : List ℕ) (closed : Bool) (spans : List Text) (st : State) (a b : Bool)
    → Tells d s a b st
    → Tells d s
        (a || lists_day d ds && not closed && one_of s spans)
        (b || lists_day d ds)
        (state_days ds closed spans st)
unfolding state_days lists_day
Tells-state_days d s [] closed spans st a b (there, e, f) =
    (there, ground (arith, e), ground (arith, f))
Tells-state_days d s (x ∷ xs) closed spans st a b (there, e, f) =
    let (there2, e2) = in_ranges-spread d x s closed spans st.days there in
    let ih =
      Tells-state_days d s xs closed spans
        (record st { stated = x ∷ st.stated; days = spread x closed spans st.days })
        (a || x == d && not closed && one_of s spans) (b || x == d)
        (there2, ground (arith, e, e2), ground (arith, f)) in
    (ih.0, ground (arith, ih.1), ground (arith, ih.2))

Tells-apply_days :
    (d : ℕ) (s : Text) (r : Rule) (ds : List ℕ) (st : State) (a b : Bool)
    → Tells d s a b st
    → Tells d s
        (a || lists_day d ds && not r.is_closed && one_of s (spans_of r.times))
        (b || lists_day d ds)
        (apply_days r ds st)
unfolding lists_day
Tells-apply_days d s r [] st a b (there, e, f) = (there, ground (arith, e), ground (arith, f))
Tells-apply_days d s r (x ∷ xs) st a b told =
    Tells-state_days d s (x ∷ xs) r.is_closed (spans_of r.times) st a b told

Tells-apply_rule :
    (d : ℕ) (s : Text) (r : Rule) (q : Option Text) (st : State) (a b : Bool)
    → r.qualifier ≡ q
    → Tells d s a b st
    → Tells d s
        (a
          || not (is_some q)
            && lists_day d r.day_codes
            && not r.is_closed
            && one_of s (spans_of r.times))
        (b || not (is_some q) && lists_day d r.day_codes)
        (apply_rule r st)
unfolding apply_rule
Tells-apply_rule d s r none st a b at told =
    let ih = Tells-apply_days d s r r.day_codes st a b told in
    subst
      (λ (o : Option Text).
        Tells d s (a || lists_day d r.day_codes && not r.is_closed && one_of s (spans_of r.times))
          (b || lists_day d r.day_codes)
          (elim o [
            | none ↦ apply_days r r.day_codes st
            | some label ↦ record st { notes = st.notes ++ note_of label r ∷ [] }
          ]))
      (sym at) ih
Tells-apply_rule d s r (some label) st a b at (there, e, f) =
    subst
      (λ (o : Option Text). Tells d s (a || false) (b || false) (elim o [
        | none ↦ apply_days r r.day_codes st
        | some l ↦ record st { notes = st.notes ++ note_of l r ∷ [] }
      ]))
      (sym at) (there, ground (arith, e), ground (arith, f))

Tells-apply_rules :
    (d : ℕ) (s : Text) (rs : List Rule) (st : State) (a b : Bool)
    → Tells d s a b st
    → Tells d s (a || says d s rs) (b || names d rs) (apply_rules rs st)
unfolding apply_rules says names
Tells-apply_rules d s [] st a b (there, e, f) = (there, ground (arith, e), ground (arith, f))
Tells-apply_rules d s (r ∷ rs) st a b told =
    let ih =
      Tells-apply_rules d s rs (apply_rule r st) _ _
        (Tells-apply_rule d s r r.qualifier st a b refl told) in
    (ih.0, ground (arith, ih.1), ground (arith, ih.2))

is_some-blank : (d : ℕ) → d < 7 → is_some (find d blank.days) ≡ true
unfolding find
is_some-blank d less = ground (arith, less)

in_ranges-blank : (d : ℕ) (s : Text) → in_ranges s (find d blank.days) ≡ false
unfolding find one_of
in_ranges-blank d s = ground arith

Tells-blank : (d : ℕ) (s : Text) → d < 7 → Tells d s false false blank
unfolding lists_day
Tells-blank d s less = (is_some-blank d less, in_ranges-blank d s, refl)

by_day-chosen :
    (a b c : Bool) (w st : State)
    → ◌≡◌ {A = Option Hours}
        (if a then none else if b then some always_open else if c then none else some (by_day w))
        (some (by_day st))
    → st ≡ w
by_day-chosen a b c w st e = ground (arith, e)

parse-by_day :
    (raw : Text) (st : State)
    → parse (some raw) ≡ some (by_day st)
    → st ≡ apply_rules (rules_of (strip raw)) blank
unfolding parse
parse-by_day raw st e =
    let w = apply_rules (rules_of (strip raw)) blank in
    by_day-chosen (is_blank (strip raw)) (is_always (strip raw))
      (no_days w.stated && no_notes w.notes) w st e

-- What the parsed week says of each day, exactly: a day has a span if and only if some rule of the text that
-- has no holiday qualifier and is not a closing one names the day and gives the span, and it is known if and only if
-- some rule without a qualifier names it. So a closing rule never takes a span from a day.
pub parse-says :
    (raw : Text) (st : State) (d : ℕ) (s : Text)
    → parse (some raw) ≡ some (by_day st)
    → d < 7
    → in_ranges s (find d st.days) ≡ says d s (rules_of (strip raw))
      × lists_day d st.stated ≡ names d (rules_of (strip raw))
parse-says raw st d s e less =
    let rules = rules_of (strip raw) in
    let told = Tells-apply_rules d s rules blank false false (Tells-blank d s less) in
    let same = parse-by_day raw st e in
    (
      ap (λ w. in_ranges s (find d w.days)) same ∙ told.1,
      ap (λ w. lists_day d w.stated) same ∙ told.2,
    )
