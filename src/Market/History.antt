-- ===== src/Market/History.antt =====
-- The daily price points of a card (app/tasks/price_snapshot.py): `_upsert_today`, and the part of
-- `record_price_observation` that stores its result. Prices are as in the alerts.
pub mod Latest
pub mod Walk
pub mod Observed
mod Tests
use loupe_backend.Prelude.{
  ℕ, ◌+◌, ◌-◌, Bool, true, false, ◌&&◌, ◌||◌, not, Option, some, List, [], ◌∷◌, ◌++◌, ltb, ◌==◌,
  if◌then◌else◌, length, take, drop,
}
use loupe_backend.Prelude.Text.{Text, codes, text_eq}
use loupe_backend.Market.Json.{
  Json, null, number, text, array, object, Items, no_items, item, Fields, no_fields, field,
  get_field, or_else, same_json,
}

-- A point that is written: an object with a date and a price.
pub record Point : Type 0 where
  pub date : Text
  pub price : Json

abbrev pub point_json : Point → Json
point_json p =
    object (field (codes "date") (text p.date) (field (codes "priceUsd") p.price no_fields))

-- The points so far, whether today's was among them, and whether anything has changed.
pub record Walked : Type 0 where
  pub points : List Point
  pub seen_today : Bool
  pub changed : Bool

abbrev today_point : Text → ℕ → Json → Point
today_point today price existing = record {
  date = today;
  price = (if same_json existing (number price) then existing else number price);
}

abbrev pub add_today : Text → ℕ → Json → Walked → Walked
add_today today price existing w = record {
  points = today_point today price existing ∷ w.points;
  seen_today = true;
  changed = not (same_json existing (number price)) || w.changed;
}

abbrev pub add_past : Point → Fields → Walked → Walked
add_past p entry w = record {
  points = p ∷ w.points;
  seen_today = w.seen_today;
  changed = not (same_json (point_json p) (object entry)) || w.changed;
}

abbrev pub add_dated : Text → ℕ → Fields → Option Json → Walked → Walked
add_dated today price entry (some (text raw_date)) w =
    let existing = or_else null (get_field (codes "priceUsd") entry) in
    if text_eq (take 10 raw_date) today
    then add_today today price existing w
    else add_past (record { date = take 10 raw_date; price = existing }) entry w
add_dated today price entry _ w = record w { changed = true }

abbrev pub add_entry : Text → ℕ → Json → Walked → Walked
add_entry today price (object entry) w =
    add_dated today price entry (get_field (codes "date") entry) w
add_entry today price _ w = record w { changed = true }

unfoldable pub walk : Text → ℕ → Items → Walked
unfolding text_eq get_field same_json
walk today price no_items = record { points = []; seen_today = false; changed = false }
walk today price (item v vs) = add_entry today price v (walk today price vs)

-- `<=` on str
unfoldable pub text_leb : Text → Text → Bool
text_leb [] t = true
text_leb (c ∷ cs) [] = false
text_leb (c ∷ cs) (d ∷ ds) = let rest = text_leb cs ds in ltb c d || (c == d && rest)

-- `out.sort(key=lambda e: e["date"])`, which is stable.
unfoldable pub place_point : Point → List Point → List Point
unfolding text_leb
place_point p [] = p ∷ []
place_point p (q ∷ qs) =
    let rest = place_point p qs in if text_leb p.date q.date then p ∷ q ∷ qs else q ∷ rest

unfoldable pub sort_points : List Point → List Point
unfolding place_point
sort_points [] = []
sort_points (p ∷ ps) = place_point p (sort_points ps)

abbrev pub max_history_points : ℕ
max_history_points = 730

abbrev pub src_of : Option Json → Items
src_of (some (array vs)) = vs
src_of _ = no_items

-- The points with today's among them.
abbrev pub with_today : Text → ℕ → Walked → List Point
with_today today price w =
    if w.seen_today
    then w.points
    else w.points ++ record { date = today; price = number price } ∷ []

-- `_upsert_today`
unfoldable pub upsert_today : Option Json → Text → ℕ → List Point × Bool
unfolding walk sort_points
upsert_today history today price =
    let w = walk today price (src_of history) in
    let out = sort_points (with_today today price w) in
    (
      drop (length out - max_history_points) out,
      w.changed || not w.seen_today || ltb max_history_points (length out),
    )

unfoldable pub items_of : List Point → Items
items_of [] = no_items
items_of (p ∷ ps) = item (point_json p) (items_of ps)

-- `meta[key] = value`
unfoldable pub set_field : Text → Json → Fields → Fields
unfolding text_eq
set_field k v no_fields = field k v no_fields
set_field k v (field j w fs) =
    let rest = set_field k v fs in if text_eq j k then field j v fs else field j w rest

-- `record_price_observation`, on the metadata of the card's row.
unfoldable pub observe : Fields → Text → ℕ → Fields
unfolding get_field upsert_today items_of set_field
observe meta today price =
    let (points, changed) = upsert_today (get_field (codes "price_history") meta) today price in
    if price == 0
    then meta
    else if changed
    then set_field (codes "price_history") (array (items_of points)) meta
    else meta
