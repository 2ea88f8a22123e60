-- ===== src/Market/History/Observed.antt =====
-- What a price alert sees of an observed price (price_snapshot.py, price_alert_service.py).
use loupe_backend.Prelude.{
  ℕ, zero, suc, ◌-◌, ◌<◌, ◌≡◌, refl, sym, ap, subst, ◌∙◌, inl, inr, Bool, true, false, Option, none,
  some, List, [], ◌∷◌, arith, is_some, ==_iff, Bool-cases, length, drop,
}
use loupe_backend.Prelude.Text.{Text, codes, text_eq, text_eq→eq, text_eq_refl}
use loupe_backend.Market.Json.{
  Json, null, boolean, number, text, array, object, Fields, no_fields, field, get_field, or_else,
  last_item, decimal,
}
use loupe_backend.Market.History.{
  Point, point_json, walk, text_leb, sort_points, max_history_points, src_of, with_today,
  upsert_today, items_of, set_field, observe,
}
use loupe_backend.Market.History.Latest.{
  text_leb_antisym, or_point, last_point, is_above, is_top, is_top-sort_points, is_number, is_fine,
  all_fine, has_date, all_fine-sort_points, has_date-sort_points,
}
use loupe_backend.Market.Alerts.{point_value, observed, summarised, or_price, last_known_price}
use loupe_backend.Market.History.Walk.{all_settled, walk-IsWalked, with_today-fine, length-has_date}

is_above-has_date :
    (d today : Text) (ps : List Point)
    → has_date today ps ≡ true
    → is_above d ps ≡ true
    → text_leb today d ≡ true
unfolding has_date is_above
is_above-has_date d today [] here above = ground (arith, here)
is_above-has_date d today (p ∷ ps) here above =
    let rest = is_above-has_date d today ps in
    elim (Bool-cases (text_eq p.date today)) [
      | inl e ↦ ground (arith, e, above, ap (λ x. text_leb x d) (text_eq→eq p.date today e))
      | inr e ↦ ground (arith, e, here, above, rest)
    ]

abbrev is_fine_last : Text → ℕ → Option Point → Bool
is_fine_last today price none = true
is_fine_last today price (some m) = is_fine today price m

all_fine-last_point :
    (today : Text) (price : ℕ) (ps : List Point)
    → all_fine today price ps ≡ true
    → is_fine_last today price (last_point ps) ≡ true
unfolding all_fine last_point
all_fine-last_point today price [] fine = refl
all_fine-last_point today price (p ∷ ps) fine =
    join p (last_point ps) (ground (arith, fine))
      (all_fine-last_point today price ps (ground (arith, fine)))
  where
    join :
        (q : Point) (o : Option Point)
        → is_fine today price q ≡ true
        → is_fine_last today price o ≡ true
        → is_fine_last today price (or_point q o) ≡ true
    join q none fine_q fine_o = fine_q
    join q (some m) fine_q fine_o = fine_o

is_some-or_point : (q : Point) (o : Option Point) → is_some (or_point q o) ≡ true
is_some-or_point q none = refl
is_some-or_point q (some m) = refl

or_point-or_point : (p q : Point) (o : Option Point) → or_point p (or_point q o) ≡ or_point q o
or_point-or_point p q none = refl
or_point-or_point p q (some m) = refl

-- The latest of points that are fine is today's, at today's price.
abbrev is_todays : ℕ → Option Point → Bool
is_todays price none = false
is_todays price (some m) = is_number price m.price

latest_price :
    (today : Text) (price : ℕ) (o : Option Point) (ps : List Point)
    → o ≡ last_point ps
    → is_top o ps ≡ true
    → has_date today ps ≡ true
    → all_fine today price ps ≡ true
    → is_todays price o ≡ true
unfolding last_point has_date
latest_price today price none [] e top here fine = ground (arith, here)
latest_price today price none (p ∷ ps) e top here fine =
    ground (arith, ap is_some e, is_some-or_point p (last_point ps))
latest_price today price (some m) ps e top here fine =
    let fine_m =
      subst (λ x. is_fine_last today price x ≡ true) (sym e)
        (all_fine-last_point today price ps fine) in
    ground
      (arith, fine_m, text_leb_antisym m.date today, is_above-has_date m.date today ps here top)

last_point-drop : (k : ℕ) (ps : List Point) → k < length ps → last_point (drop k ps) ≡ last_point ps
unfolding last_point
last_point-drop zero ps less = refl
last_point-drop (suc k) [] less = refl
last_point-drop (suc k) (p ∷ []) less = ground (arith, less)
last_point-drop (suc k) (p ∷ q ∷ qs) less =
    last_point-drop k (q ∷ qs) (omega (arith, less)) ∙ sym (or_point-or_point p q (last_point qs))

abbrev json_of : Option Point → Option Json
json_of none = none
json_of (some m) = some (point_json m)

last_item-items_of : (ps : List Point) → last_item (items_of ps) ≡ json_of (last_point ps)
unfolding last_item items_of last_point
last_item-items_of [] = refl
last_item-items_of (p ∷ []) = refl
last_item-items_of (p ∷ q ∷ qs) =
    last_item-items_of (q ∷ qs) ∙ ap json_of (sym (or_point-or_point p q (last_point qs)))

get_field-set_field : (k : Text) (v : Json) (fs : Fields) → get_field k (set_field k v fs) ≡ some v
unfolding get_field set_field
get_field-set_field k v no_fields = ground (arith, text_eq_refl k)
get_field-set_field k v (field j w fs) = ground (arith, get_field-set_field k v fs)

-- The latest point is the observed one: after an upsert into a history of the past, the last point's price
-- is the one observed.
last_point-upsert_today :
    (history : Option Json) (today : Text) (price : ℕ)
    → all_settled today (src_of history) ≡ true
    → is_todays price (last_point (upsert_today history today price).0) ≡ true
unfolding upsert_today
last_point-upsert_today history today price ok =
    let points = with_today today price (walk today price (src_of history)) in
    let out = sort_points points in
    let (fine, here) =
      with_today-fine today price (walk today price (src_of history))
        (walk-IsWalked today price (src_of history) ok) in
    let here_out = has_date-sort_points today points ∙ here in
    let some_ = length-has_date today out here_out in
    ap (is_todays price)
      (last_point-drop (length out - max_history_points) out (omega (arith, some_)))
    ∙ latest_price today price (last_point out) out refl (is_top-sort_points points) here_out
        (all_fine-sort_points today price points ∙ fine)

decimal_number :
    (parse : Text → Option ℕ) (price : ℕ) (j : Json)
    → is_number price j ≡ true
    → decimal parse j ≡ some price
decimal_number parse price null e = ground (arith, e)
decimal_number parse price (boolean b) e = ground (arith, e)
decimal_number parse price (number n) e = ap some ((==_iff n price).0 e)
decimal_number parse price (text t) e = ground (arith, e)
decimal_number parse price (array vs) e = ground (arith, e)
decimal_number parse price (object fs) e = ground (arith, e)

decimal_last :
    (parse : Text → Option ℕ) (price : ℕ) (o : Option Point)
    → is_todays price o ≡ true
    → decimal parse (point_value (or_else null (json_of o))) ≡ some price
unfolding get_field text_eq
decimal_last parse price none e = ground (arith, e)
decimal_last parse price (some m) e = decimal_number parse price m.price e

observed_points :
    (parse : Text → Option ℕ) (price : ℕ) (ps : List Point)
    → is_todays price (last_point ps) ≡ true
    → observed parse (some (array (items_of ps))) ≡ some price
unfolding last_item
observed_points parse price ps e =
    ap (λ o. decimal parse (point_value (or_else null o))) (last_item-items_of ps)
    ∙ decimal_last parse price (last_point ps) e

observe_changed :
    (meta : Fields) (today : Text) (price : ℕ)
    → 0 < price
    → (upsert_today (get_field (codes "price_history") meta) today price).1 ≡ true
    → observe meta today price
      ≡ set_field
          (codes "price_history")
          (array (items_of (upsert_today (get_field (codes "price_history") meta) today price).0))
          meta
unfolding observe
observe_changed meta today price pos changed = ground (arith, pos, changed)

-- An alert sees the price that was just observed: when an observation of a positive price changes a history that
-- holds no later point, and no Boolean as today's price, the last known price, which decides
-- whether a new alert fires at once, is the observed one.
pub last_known_price-observe :
    (parse : Text → Option ℕ) (meta : Fields) (today : Text) (price : ℕ)
    → 0 < price
    → all_settled today (src_of (get_field (codes "price_history") meta)) ≡ true
    → (upsert_today (get_field (codes "price_history") meta) today price).1 ≡ true
    → last_known_price parse (some (object (observe meta today price))) ≡ some price
unfolding last_known_price
last_known_price-observe parse meta today price pos ok changed =
    let history = get_field (codes "price_history") meta in
    let points = (upsert_today history today price).0 in
    let after = set_field (codes "price_history") (array (items_of points)) meta in
    let summary = summarised parse (get_field (codes "pricing_summary") after) in
    ap (λ fs. last_known_price parse (some (object fs)))
      (observe_changed meta today price pos changed)
    ∙ ap (λ o. or_price (observed parse o) summary)
        (get_field-set_field (codes "price_history") (array (items_of points)) meta)
    ∙ ap (λ o. or_price o summary)
        (observed_points parse price points (last_point-upsert_today history today price ok))
