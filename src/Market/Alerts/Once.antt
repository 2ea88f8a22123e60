-- ===== src/Market/Alerts/Once.antt =====
-- How often an alert is announced (price_alert_service.py).
use loupe_backend.Prelude.{
  ℕ, suc, ◌+◌, ◌≤◌, ◌≡◌, refl, inl, inr, ◌&&◌, not, Option, none, some, List, [], ◌∷◌, ◌++◌, arith,
  leb, ◌==◌, if◌then◌else◌, is_some, Option-cases,
}
use loupe_backend.Prelude.Text.{Text}
use loupe_backend.Market.Alerts.{
  Alert, Db, last_known_price, trigger, create, delete_from, delete, is_due, fire_due, fired_by,
  evaluate_for_card, Call, creating, deleting, observing, step, run,
}

-- How many of these alerts have this id.
unfoldable pub times : ℕ → List Alert → ℕ
times id [] = 0
times id (a ∷ as_) = let rest = times id as_ in if a.id == id then suc rest else rest

-- How many rows with this id are still to fire.
unfoldable pub pending : ℕ → List Alert → ℕ
pending id [] = 0
pending id (a ∷ as_) =
    let rest = pending id as_ in
    if a.id == id && not (is_some a.triggered_at) then suc rest else rest

-- How many rows the id may still be given to.
unfoldable pub to_come : ℕ → Db → ℕ
to_come id db = if leb db.next_id id then 1 else 0

pub times-append : (id : ℕ) (xs ys : List Alert) → times id (xs ++ ys) ≡ times id xs + times id ys
unfolding times
times-append id [] ys = omega arith
times-append id (x ∷ xs) ys = ground (arith, times-append id xs ys)

-- Every row that fires was pending and is not any more.
pending-fire_due :
    (id card price now : ℕ) (as_ : List Alert)
    → times id (fired_by card price now as_) + pending id (fire_due card price now as_)
      ≡ pending id as_
unfolding times pending fired_by fire_due is_due trigger
pending-fire_due id card price now [] = refl
pending-fire_due id card price now (a ∷ as_) =
    ground (arith, pending-fire_due id card price now as_)

pending-delete_from :
    (user j id : ℕ) (as_ : List Alert) → pending id (delete_from user j as_) ≤ pending id as_
unfolding pending delete_from
pending-delete_from user j id [] = omega arith
pending-delete_from user j id (a ∷ as_) = ground (arith, pending-delete_from user j id as_)

step-pending :
    (parse : Text → Option ℕ) (db : Db) (c : Call) (id : ℕ)
    → times id (step parse db c).0
        + pending id (step parse db c).1.alerts
        + to_come id (step parse db c).1
      ≤ pending id db.alerts + to_come id db
unfolding times pending to_come create delete evaluate_for_card trigger
step-pending parse db (creating user p none meta now) id = omega arith
step-pending parse db (creating user p (some card) meta now) id =
    elim (Option-cases (last_known_price parse meta)) [
      | inl e ↦ ground (arith, e)
      | inr (price, e) ↦ ground (arith, e)
    ]
step-pending parse db (deleting user j) id = ground (arith, pending-delete_from user j id db.alerts)
step-pending parse db (observing card price now) id =
    ground (arith, pending-fire_due id card price now db.alerts)

-- An alert is announced at most once: whatever calls are made, it is announced at most as often as it has
-- rows that are still to fire, and once if its id is yet to be given; an alert that has
-- fired is never announced again.
pub times-run :
    (parse : Text → Option ℕ) (db : Db) (calls : List Call) (id : ℕ)
    → times id (run parse db calls).0 ≤ pending id db.alerts + to_come id db
unfolding run times
times-run parse db [] id = ground arith
times-run parse db (c ∷ cs) id = ground (
  arith,
  step-pending parse db c id,
  times-run parse (step parse db c).1 cs id,
  times-append id (step parse db c).0 (run parse (step parse db c).1 cs).0,
)
