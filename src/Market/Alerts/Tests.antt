-- ===== src/Market/Alerts/Tests.antt =====
-- Runs of the price alerts.
use loupe_backend.Prelude.{ℕ, ◌≤◌, ◌≡◌, refl, Option, none, some, List, [], ◌∷◌, arith}
use loupe_backend.Prelude.Text.{Text, codes, text_eq}
use loupe_backend.Market.Json.{Json, number, array, object, item, no_items, field, no_fields}
use loupe_backend.Market.Alerts.{
  delete, above, below, Alert, Db, PriceAlertCreate, Call, creating, deleting, observing,
  last_known_price, create, evaluate_for_card, run,
}
use loupe_backend.Market.Alerts.Once.{times, pending, to_come, times-run}
use loupe_backend.Market.Alerts.First.{find_alert, is_spared, first_hit, settled, run-first_hit}
use loupe_backend.Market.Alerts.Announced.{times-first_hit}

-- No text is read as a number.
abbrev no_text : Text → Option ℕ
no_text t = none

abbrev watch : Alert
watch = record {
  id = 4;
  user_id = 1;
  card_id = 9;
  condition = above;
  threshold_usd = 100000;
  note = none;
  triggered_at = none;
  triggered_price_usd = none;
}

abbrev start : Db
start = record { alerts = watch ∷ []; next_id = 5 }

abbrev cheap : PriceAlertCreate
cheap = record { condition = below; threshold_usd = 50000; note = none }

-- A card whose last observed price is four dollars.
abbrev four_dollars : Json
four_dollars = object (
    field (codes "price_history")
      (array (item (object (field (codes "priceUsd") (number 40000) no_fields)) no_items))
      no_fields)

-- The price moves past the threshold, falls, and moves past it again.
abbrev week : List Call
week =
    observing 9 99900 1
    ∷ creating 2 cheap (some 9) (some four_dollars) 2
    ∷ observing 8 200000 3
    ∷ deleting 2 4
    ∷ observing 9 150000 4
    ∷ observing 9 60000 5
    ∷ observing 9 170000 6
    ∷ []

times-run-twice : times 4 (run no_text start week).0 ≤ 1
unfolding pending to_come
times-run-twice = times-run no_text start week 4

run-first_hit_example :
    find_alert 4 (run no_text start week).1.alerts ≡ some (settled watch (some (150000, 4)))
unfolding first_hit find_alert is_spared
run-first_hit_example = run-first_hit no_text start week 4 watch refl (omega arith) refl refl

times-first_hit_example : 1 ≤ times 4 (run no_text start week).0
unfolding first_hit find_alert is_spared
times-first_hit_example =
    times-first_hit no_text start week 4 watch refl (omega arith) refl refl refl

-- An alert that is already satisfied is announced as it is created.
four_fires : times 5 (run no_text start week).0 ≡ 1
unfolding run create delete evaluate_for_card last_known_price times text_eq
four_fires = refl
