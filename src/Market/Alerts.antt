-- ===== src/Market/Alerts.antt =====
-- Price alerts (app/services/market/price_alert_service.py). Prices are counts of ten-thousandths of a
-- dollar. A push to the user is a notice in the answer, since its failure is ignored.
pub mod Once
pub mod First
pub mod Announced
mod Tests
use loupe_backend.Prelude.{
  ℕ, suc, ◌+◌, Bool, true, false, ◌&&◌, ◌||◌, not, Option, none, some, List, [], ◌∷◌, ◌++◌, leb,
  ◌==◌, if◌then◌else◌, is_some,
}
use loupe_backend.Prelude.Text.{Text, codes}
use loupe_backend.Market.Json.{Json, null, array, object, get_field, or_else, last_item, decimal}

pub data Condition : Type 0 where
  above below : Condition

pub record Alert : Type 0 where
  pub id : ℕ
  pub user_id : ℕ
  pub card_id : ℕ
  pub condition : Condition
  pub threshold_usd : ℕ
  pub note : Option Text
  pub triggered_at : Option ℕ
  pub triggered_price_usd : Option ℕ

pub record Db : Type 0 where
  pub alerts : List Alert
  pub next_id : ℕ

-- `_satisfies`
unfoldable pub satisfies : Condition → ℕ → ℕ → Bool
satisfies above price threshold = leb threshold price
satisfies below price threshold = leb price threshold

abbrev pub point_value : Json → Json
point_value (object fs) =
    or_else (or_else null (get_field (codes "price") fs)) (get_field (codes "priceUsd") fs)
point_value _ = null

-- The price of the last point of the history.
abbrev pub observed : (Text → Option ℕ) → Option Json → Option ℕ
observed parse (some (array vs)) = decimal parse (point_value (or_else null (last_item vs)))
observed parse _ = none

abbrev amount_of : Option Json → Json
amount_of (some (object fs)) = or_else null (get_field (codes "amount") fs)
amount_of _ = null

-- The amount of the pricing summary's market price.
abbrev pub summarised : (Text → Option ℕ) → Option Json → Option ℕ
summarised parse (some (object fs)) = decimal parse (amount_of (get_field (codes "market") fs))
summarised parse _ = none

abbrev pub or_price : Option ℕ → Option ℕ → Option ℕ
or_price none p = p
or_price (some q) p = some q

-- `_last_known_price`, on the metadata of the card, if there is one.
unfoldable pub last_known_price : (Text → Option ℕ) → Option Json → Option ℕ
unfolding get_field last_item
last_known_price parse (some (object meta)) =
    or_price (observed parse (get_field (codes "price_history") meta))
      (summarised parse (get_field (codes "pricing_summary") meta))
last_known_price parse _ = none

unfoldable pub trigger : ℕ → ℕ → Alert → Alert
trigger price now a = record a { triggered_at = some now; triggered_price_usd = some price }

pub record PriceAlertCreate : Type 0 where
  pub condition : Condition
  pub threshold_usd : ℕ
  pub note : Option Text

abbrev fresh : Db → ℕ → ℕ → PriceAlertCreate → Alert
fresh db user card p = record {
  id = db.next_id;
  user_id = user;
  card_id = card;
  condition = p.condition;
  threshold_usd = p.threshold_usd;
  note = p.note;
  triggered_at = none;
  triggered_price_usd = none;
}

-- `_maybe_fire_on_create`: the row as it is stored, and whether its owner is told.
abbrev pub maybe_fire : Alert → Option ℕ → ℕ → Alert × Bool
maybe_fire a none now = (a, false)
maybe_fire a (some price) now =
    if satisfies a.condition price a.threshold_usd then (trigger price now a, true) else (a, false)

pub data Created : Type 0 where
  card_not_resolvable : Created
  created : Alert → Bool → Created

abbrev store : Db → Alert × Bool → Created × Db
store db (a, told) = (created a told, record { alerts = a ∷ db.alerts; next_id = suc db.next_id })

-- `create`: the card's id is what the resolver made of the reference, the metadata that of its row.
unfoldable pub create :
    (Text → Option ℕ) → Db → ℕ → PriceAlertCreate → Option ℕ → Option Json → ℕ → Created × Db
unfolding satisfies trigger last_known_price
create parse db user p none meta now = (card_not_resolvable, db)
create parse db user p (some card) meta now =
    store db (maybe_fire (fresh db user card p) (last_known_price parse meta) now)

abbrev is_own : ℕ → ℕ → Alert → Bool
is_own user id a = a.id == id && a.user_id == user

unfoldable pub delete_from : ℕ → ℕ → List Alert → List Alert
delete_from user id [] = []
delete_from user id (a ∷ as_) =
    let rest = delete_from user id as_ in if is_own user id a then rest else a ∷ rest

unfoldable pub has_own : ℕ → ℕ → List Alert → Bool
has_own user id [] = false
has_own user id (a ∷ as_) = is_own user id a || has_own user id as_

-- `delete`
unfoldable pub delete : Db → ℕ → ℕ → Bool × Db
unfolding delete_from has_own
delete db user id =
    (has_own user id db.alerts, record db { alerts = delete_from user id db.alerts })

-- A row that the query selects and the price satisfies.
unfoldable pub is_due : ℕ → ℕ → Alert → Bool
unfolding satisfies
is_due card price a =
    a.card_id == card && not (is_some a.triggered_at) && satisfies a.condition price a.threshold_usd

unfoldable pub fire_due : ℕ → ℕ → ℕ → List Alert → List Alert
unfolding is_due trigger
fire_due card price now [] = []
fire_due card price now (a ∷ as_) =
    (if is_due card price a then trigger price now a else a) ∷ fire_due card price now as_

-- The rows that just fired.
unfoldable pub fired_by : ℕ → ℕ → ℕ → List Alert → List Alert
unfolding is_due trigger
fired_by card price now [] = []
fired_by card price now (a ∷ as_) =
    let rest = fired_by card price now as_ in
    if is_due card price a then trigger price now a ∷ rest else rest

-- `evaluate_for_card`
unfoldable pub evaluate_for_card : Db → ℕ → ℕ → ℕ → List Alert × Db
unfolding fire_due fired_by
evaluate_for_card db card price now =
    (fired_by card price now db.alerts, record db { alerts = fire_due card price now db.alerts })

-- The calls that change the table.
pub data Call : Type 0 where
  creating : ℕ → PriceAlertCreate → Option ℕ → Option Json → ℕ → Call
  deleting : ℕ → ℕ → Call
  observing : ℕ → ℕ → ℕ → Call

-- The alerts whose owners a creation tells.
abbrev pub told_by : Created → List Alert
told_by card_not_resolvable = []
told_by (created a true) = a ∷ []
told_by (created a false) = []

-- The alerts that a call announces, and the table after it.
abbrev pub step : (Text → Option ℕ) → Db → Call → List Alert × Db
step parse db (creating user p card meta now) =
    let r = create parse db user p card meta now in (told_by r.0, r.1)
step parse db (deleting user id) = ([], (delete db user id).1)
step parse db (observing card price now) = evaluate_for_card db card price now

unfoldable pub run : (Text → Option ℕ) → Db → List Call → List Alert × Db
run parse db [] = ([], db)
run parse db (c ∷ cs) =
    let (told, after) = step parse db c in
    let (later, end) = run parse after cs in (told ++ later, end)
