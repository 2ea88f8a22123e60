-- ===== src/Market/History/Walk.antt =====
-- The points that a walk over a history collects (price_snapshot.py).
use loupe_backend.Prelude.{
  if_elim, ℕ, ◌<◌, ◌≡◌, refl, Bool, true, false, ◌&&◌, ◌||◌, not, Option, none, some, List, [], ◌∷◌,
  ◌++◌, arith, length, take,
}
use loupe_backend.Prelude.Text.{Text, codes, text_eq, text_eq_refl}
use loupe_backend.Market.Json.{
  Json, null, boolean, number, text, array, object, Items, no_items, item, Fields, get_field,
  or_else, same_json,
}
use loupe_backend.Market.History.{
  Point, Walked, today_point, add_dated, add_entry, walk, text_leb, with_today,
}
use loupe_backend.Market.History.Latest.{text_leb_refl, is_number, all_fine, has_date}

-- What the code takes for granted of the stored points: none is later than today, and none of today's has a
-- Boolean for a price.
abbrev is_plain : Json → Bool
is_plain (boolean b) = false
is_plain _ = true

abbrev is_settled_at : Text → Fields → Option Json → Bool
is_settled_at today entry (some (text d)) =
    text_leb (take 10 d) today
    && (not (text_eq (take 10 d) today)
        || is_plain (or_else null (get_field (codes "priceUsd") entry)))
is_settled_at today entry _ = true

abbrev is_settled : Text → Json → Bool
is_settled today (object entry) = is_settled_at today entry (get_field (codes "date") entry)
is_settled today _ = true

unfoldable pub all_settled : Text → Items → Bool
unfolding text_leb text_eq get_field
all_settled today no_items = true
all_settled today (item v vs) = is_settled today v && all_settled today vs

-- The points of a walk are fine, and hold today's if it was seen.
abbrev pub IsWalked : Text → ℕ → Walked → Type 0
IsWalked today price w =
    (all_fine today price w.points ≡ true) × ((not w.seen_today || has_date today w.points) ≡ true)

is_number-today_point :
    (today : Text) (price : ℕ) (existing : Json)
    → is_plain existing ≡ true
    → is_number price (today_point today price existing).price ≡ true
unfolding same_json
is_number-today_point today price null plain = ground arith
is_number-today_point today price (boolean b) plain = ground (arith, plain)
is_number-today_point today price (number n) plain = ground arith
is_number-today_point today price (text t) plain = ground arith
is_number-today_point today price (array vs) plain = ground arith
is_number-today_point today price (object fs) plain = ground arith

add_dated-IsWalked :
    (today : Text) (price : ℕ) (entry : Fields) (o : Option Json) (w : Walked)
    → is_settled_at today entry o ≡ true
    → IsWalked today price w
    → IsWalked today price (add_dated today price entry o w)
unfolding all_fine has_date
add_dated-IsWalked today price entry none w ok old = old
add_dated-IsWalked today price entry (some null) w ok old = old
add_dated-IsWalked today price entry (some (boolean b)) w ok old = old
add_dated-IsWalked today price entry (some (number n)) w ok old = old
add_dated-IsWalked today price entry (some (array vs)) w ok old = old
add_dated-IsWalked today price entry (some (object fs)) w ok old = old
add_dated-IsWalked today price entry (some (text d)) w ok old =
    let existing = or_else null (get_field (codes "priceUsd") entry) in
    if_elim {A = Walked} (IsWalked today price) (text_eq (take 10 d) today) _ _
      (λ e. (
        ground (
          arith,
          old.0,
          text_leb_refl today,
          is_number-today_point today price existing (ground (arith, ok, e)),
        ),
        ground (arith, text_eq_refl today),
      ))
      (λ e. (ground (arith, old.0, ok, e), ground (arith, old.1)))

add_entry-IsWalked :
    (today : Text) (price : ℕ) (v : Json) (w : Walked)
    → is_settled today v ≡ true
    → IsWalked today price w
    → IsWalked today price (add_entry today price v w)
add_entry-IsWalked today price null w ok old = old
add_entry-IsWalked today price (boolean b) w ok old = old
add_entry-IsWalked today price (number n) w ok old = old
add_entry-IsWalked today price (text t) w ok old = old
add_entry-IsWalked today price (array vs) w ok old = old
add_entry-IsWalked today price (object entry) w ok old =
    add_dated-IsWalked today price entry (get_field (codes "date") entry) w ok old

pub walk-IsWalked :
    (today : Text) (price : ℕ) (vs : Items)
    → all_settled today vs ≡ true
    → IsWalked today price (walk today price vs)
unfolding walk all_settled all_fine has_date
walk-IsWalked today price no_items ok = (refl, refl)
walk-IsWalked today price (item v vs) ok =
    add_entry-IsWalked today price v (walk today price vs) (ground (arith, ok))
      (walk-IsWalked today price vs (ground (arith, ok)))

append_today :
    (today : Text) (price : ℕ) (ps : List Point)
    → all_fine today price ps ≡ true
    → (all_fine today price (ps ++ record { date = today; price = number price } ∷ []) ≡ true)
      × (has_date today (ps ++ record { date = today; price = number price } ∷ []) ≡ true)
unfolding all_fine has_date
append_today today price [] fine =
    (ground (arith, text_leb_refl today), ground (arith, text_eq_refl today))
append_today today price (p ∷ ps) fine =
    let rest = append_today today price ps (ground (arith, fine)) in
    (ground (arith, fine, rest.0), ground (arith, rest.1))

pub with_today-fine :
    (today : Text) (price : ℕ) (w : Walked)
    → IsWalked today price w
    → (all_fine today price (with_today today price w) ≡ true)
      × (has_date today (with_today today price w) ≡ true)
with_today-fine today price w ok =
    if_elim {A = List Point} (λ ps. (all_fine today price ps ≡ true) × (has_date today ps ≡ true))
      w.seen_today _ _ (λ seen. (ok.0, ground (arith, ok.1, seen)))
      (λ _. append_today today price w.points ok.0)

pub length-has_date : (today : Text) (ps : List Point) → has_date today ps ≡ true → 0 < length ps
unfolding has_date
length-has_date today [] here = ground (arith, here)
length-has_date today (p ∷ ps) here = omega arith
