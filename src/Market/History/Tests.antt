-- ===== src/Market/History/Tests.antt =====
-- Runs of the price history.
use loupe_backend.Prelude.{ℕ, String, ◌≡◌, refl, false, Option, none, some, [], ◌∷◌, arith}
use loupe_backend.Prelude.Text.{Text, codes}
use loupe_backend.Market.Json.{
  Json, null, number, text, array, object, Items, item, no_items, Fields, field, no_fields,
  count_fields,
}
use loupe_backend.Market.Alerts.{last_known_price}
use loupe_backend.Market.History.{upsert_today, observe}
use loupe_backend.Market.History.Walk.{all_settled}
use loupe_backend.Market.History.Observed.{last_known_price-observe}

abbrev no_text : Text → Option ℕ
no_text t = none

abbrev entry : String → ℕ → Json
entry d n =
    object (field (codes "date") (text (codes d)) (field (codes "priceUsd") (number n) no_fields))

-- Two stored days, the newer of them first.
abbrev meta : Fields
meta =
    field (codes "price_history")
      (array (item (entry "2026-03-02" 120000) (item (entry "2026-03-01" 110000) no_items)))
      no_fields

last_known_price-observe_example :
    last_known_price no_text (some (object (observe meta (codes "2026-03-03") 130000)))
    ≡ some 130000
unfolding all_settled upsert_today count_fields
last_known_price-observe_example =
    last_known_price-observe no_text meta (codes "2026-03-03") 130000 (omega arith) refl refl

-- The same price again on the same day changes nothing.
unchanged :
    (upsert_today
      (some (array (item (entry "2026-03-01" 110000) (item (entry "2026-03-02" 120000) no_items))))
      (codes "2026-03-02")
      120000).1
    ≡ false
unfolding upsert_today count_fields
unchanged = refl

-- A point of the older form, with its price under "price", keeps its date and loses its price.
abbrev older : Items
older =
    item
      (object (
        field (codes "date") (text (codes "2026-03-01"))
          (field (codes "price") (number 90000) no_fields)))
      no_items

older_price :
    (upsert_today (some (array older)) (codes "2026-03-02") 120000).0
    ≡ record { date = codes "2026-03-01"; price = null }
      ∷ record { date = codes "2026-03-02"; price = number 120000 }
      ∷ []
unfolding upsert_today
older_price = refl
