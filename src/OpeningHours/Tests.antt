-- ===== src/OpeningHours/Tests.antt =====
-- Opening hours on concrete data.
use loupe_backend.Prelude.{◌≡◌, refl, some, List, [], ◌∷◌, arith}
use loupe_backend.Prelude.Text.{
  Text, lstrip, rstrip, strip, split, partition, codes, lower, text_eq,
}
use loupe_backend.Prelude.Tables.{find, change}
use loupe_backend.OpeningHours.{
  one_of, canonical_day, is_closed_word, qualifier_label, is_time_point, is_time_span,
  any_time_span, lstrip_comma, rstrip_char, starts_times, words, spaced, break_times,
  split_selector_and_times, rule_comma, sub_commas,
}
use loupe_backend.OpeningHours.Week.{
  days_from, day_range, expand_parts, expand_days, spans_of, read_rule, read_rules, rules_of, State,
  add_spans, state_days, apply_rule, apply_rules, always_open, by_day, is_always, parse,
}
use loupe_backend.OpeningHours.Said.{lists_day, names, says, in_ranges, parse-says}

abbrev usual : Text
usual = codes "Mo-Sa 09:00-17:00, Su 10:00-12:00; Su off; PH off"

abbrev nine : List Text
nine = codes "09:00-17:00" ∷ []

abbrev usual_week : State
usual_week = record {
  days =
      (0, nine)
      ∷ (1, nine)
      ∷ (2, nine)
      ∷ (3, nine)
      ∷ (4, nine)
      ∷ (5, nine)
      ∷ (6, codes "10:00-12:00" ∷ [])
      ∷ [];
  stated = 6 ∷ 6 ∷ 5 ∷ 4 ∷ 3 ∷ 2 ∷ 1 ∷ 0 ∷ [];
  notes = codes "Public holidays: closed" ∷ [];
}

-- The closing rule for Sunday changes nothing.
parse-usual : parse (some usual) ≡ some (by_day usual_week)
unfolding parse strip lstrip rstrip is_always partition text_eq lower rules_of read_rules
    rstrip_char sub_commas rule_comma canonical_day split read_rule split_selector_and_times words
    spaced break_times starts_times is_closed_word any_time_span is_time_span is_time_point
    lstrip_comma one_of expand_days expand_parts qualifier_label day_range days_from apply_rules
    apply_rule state_days spans_of add_spans change
parse-usual = refl

parse-says_example :
    in_ranges (codes "10:00-12:00") (find 6 usual_week.days)
      ≡ says 6 (codes "10:00-12:00") (rules_of (strip usual))
    × lists_day 6 usual_week.stated ≡ names 6 (rules_of (strip usual))
parse-says_example = parse-says usual usual_week 6 (codes "10:00-12:00") parse-usual (omega arith)

abbrev mixed : Text
mixed = codes "Mo-Sa,PH 10:00-18:00"

abbrev mixed_week : State
mixed_week = record {
  days = (0, []) ∷ (1, []) ∷ (2, []) ∷ (3, []) ∷ (4, []) ∷ (5, []) ∷ (6, []) ∷ [];
  stated = [];
  notes = codes "Public holidays: 10:00-18:00" ∷ [];
}

-- Days next to a holiday are dropped, and stay unknown.
parse-mixed : parse (some mixed) ≡ some (by_day mixed_week)
unfolding parse strip lstrip rstrip is_always partition text_eq lower rules_of read_rules
    rstrip_char sub_commas rule_comma canonical_day split read_rule split_selector_and_times words
    spaced break_times starts_times is_closed_word any_time_span is_time_span is_time_point
    lstrip_comma one_of expand_days expand_parts qualifier_label day_range days_from apply_rules
    apply_rule state_days spans_of add_spans change
parse-mixed = refl

parse_always : parse (some (codes " 24 / 7 ")) ≡ some always_open
unfolding parse strip lstrip rstrip is_always partition text_eq lower
parse_always = refl

-- From Friday to Monday.
day_range_run : day_range 4 0 ≡ 4 ∷ 5 ∷ 6 ∷ 0 ∷ []
unfolding day_range days_from
day_range_run = refl
