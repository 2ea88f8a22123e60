-- ===== src/Market/Alerts/First.antt =====
-- When an alert fires (price_alert_service.py).
use loupe_backend.Prelude.{
  ℕ, ◌<◌, ◌≡◌, refl, ap, ◌∙◌, inl, inr, Bool, true, false, ◌&&◌, not, Option, none, some, List, [],
  ◌∷◌, arith, ◌==◌, if◌then◌else◌, is_some, Option-cases,
}
use loupe_backend.Prelude.Text.{Text}
use loupe_backend.Market.Alerts.{
  Alert, Db, satisfies, last_known_price, trigger, create, is_own, delete_from, delete, is_due,
  fire_due, evaluate_for_card, Call, creating, deleting, observing, step, run,
}

-- The row with this id.
unfoldable pub find_alert : ℕ → List Alert → Option Alert
find_alert id [] = none
find_alert id (a ∷ as_) = if a.id == id then some a else find_alert id as_

-- Whether a call is its owner's deletion of the alert.
unfoldable pub deletes : Alert → Call → Bool
unfolding is_own
deletes a (deleting user id) = is_own user id a
deletes a _ = false

unfoldable pub is_spared : Alert → List Call → Bool
unfolding deletes
is_spared a [] = true
is_spared a (c ∷ cs) = not (deletes a c) && is_spared a cs

-- The price that a call observes and its time, if it is one of the alert's card that satisfies it.
unfoldable pub hit : Alert → Call → Option (ℕ × ℕ)
unfolding satisfies
hit a (observing card price now) =
    if a.card_id == card && satisfies a.condition price a.threshold_usd
    then some (price, now)
    else none
hit a _ = none

-- The first of them in a sequence of calls.
unfoldable pub first_hit : Alert → List Call → Option (ℕ × ℕ)
unfolding hit
first_hit a [] = none
first_hit a (c ∷ cs) = if is_some (hit a c) then hit a c else first_hit a cs

find_alert-fire_due :
    (id card price now : ℕ) (as_ : List Alert)
    → find_alert id (fire_due card price now as_) ≡ elim (find_alert id as_) [
      | none ↦ none
      | some a ↦ some (if is_due card price a then trigger price now a else a)
    ]
unfolding find_alert fire_due trigger
find_alert-fire_due id card price now [] = refl
find_alert-fire_due id card price now (a ∷ as_) =
    ground (arith, find_alert-fire_due id card price now as_)

find_alert-delete_from :
    (id user j : ℕ) (as_ : List Alert) (a : Alert)
    → find_alert id as_ ≡ some a
    → is_own user j a ≡ false
    → find_alert id (delete_from user j as_) ≡ some a
unfolding find_alert delete_from
find_alert-delete_from id user j [] a here other = ground (arith, here)
find_alert-delete_from id user j (b ∷ as_) a here other =
    let rest = find_alert-delete_from id user j as_ a in ground (arith, here, other, rest)

-- What a call that does not delete the alert makes of its row.
abbrev pub after_call : Alert → Call → Alert
after_call a (observing card price now) = if is_due card price a then trigger price now a else a
after_call a _ = a

pub step-find_alert :
    (parse : Text → Option ℕ) (db : Db) (c : Call) (id : ℕ) (a : Alert)
    → find_alert id db.alerts ≡ some a
    → id < db.next_id
    → deletes a c ≡ false
    → (find_alert id (step parse db c).1.alerts ≡ some (after_call a c))
      × (id < (step parse db c).1.next_id)
unfolding create delete evaluate_for_card deletes find_alert trigger
step-find_alert parse db (creating user p none meta now) id a here old kept = (here, old)
step-find_alert parse db (creating user p (some card) meta now) id a here old kept =
    elim (Option-cases (last_known_price parse meta)) [
      | inl e ↦ ground (arith, e)
      | inr (price, e) ↦ ground (arith, e)
    ]
step-find_alert parse db (deleting user j) id a here old kept =
    (find_alert-delete_from id user j db.alerts a here kept, old)
step-find_alert parse db (observing card price now) id a here old kept =
    (find_alert-fire_due id card price now db.alerts ∙ rw here refl, old)

after_call-triggered : (a : Alert) (c : Call) → is_some a.triggered_at ≡ true → after_call a c ≡ a
unfolding is_due
after_call-triggered a (creating user p card meta now) done = refl
after_call-triggered a (deleting user id) done = refl
after_call-triggered a (observing card price now) done = ground (arith, done)

-- An alert that has fired stays as it fired.
run-triggered :
    (parse : Text → Option ℕ) (db : Db) (calls : List Call) (id : ℕ) (a : Alert)
    → find_alert id db.alerts ≡ some a
    → id < db.next_id
    → is_spared a calls ≡ true
    → is_some a.triggered_at ≡ true
    → find_alert id (run parse db calls).1.alerts ≡ some a
unfolding run is_spared
run-triggered parse db [] id a here old spared done = here
run-triggered parse db (c ∷ cs) id a here old spared done =
    let (found, known) = step-find_alert parse db c id a here old (ground (arith, spared)) in
    run-triggered parse (step parse db c).1 cs id a
      (found ∙ ap some (after_call-triggered a c done)) known (ground (arith, spared)) done

is_spared-trigger :
    (price now : ℕ) (a : Alert) (calls : List Call)
    → is_spared (trigger price now a) calls ≡ is_spared a calls
unfolding is_spared deletes trigger
is_spared-trigger price now a [] = refl
is_spared-trigger price now a (creating user p card meta t ∷ cs) = is_spared-trigger price now a cs
is_spared-trigger price now a (deleting user id ∷ cs) =
    ground (arith, is_spared-trigger price now a cs)
is_spared-trigger price now a (observing card q t ∷ cs) = is_spared-trigger price now a cs

abbrev pub settled : Alert → Option (ℕ × ℕ) → Alert
settled a none = a
settled a (some (price, now)) = trigger price now a

pub after_call-pending :
    (a : Alert) (c : Call) → a.triggered_at ≡ none → after_call a c ≡ settled a (hit a c)
unfolding is_due hit
after_call-pending a (creating user p card meta now) fresh_ = refl
after_call-pending a (deleting user id) fresh_ = refl
after_call-pending a (observing card price now) fresh_ = ground (arith, ap is_some fresh_)

is_spared-settled :
    (a : Alert) (h : Option (ℕ × ℕ)) (calls : List Call)
    → is_spared (settled a h) calls ≡ is_spared a calls
is_spared-settled a none calls = refl
is_spared-settled a (some (price, now)) calls = is_spared-trigger price now a calls

settled-triggered : (a : Alert) (h : ℕ × ℕ) → is_some (settled a (some h)).triggered_at ≡ true
unfolding trigger
settled-triggered a h = refl

-- An alert fires at the first price that satisfies it: a pending alert that its owner does not delete
-- holds, after any calls, the first observed price of its card that satisfies its condition, with
-- the time of it, and is still pending if there was no such price.
pub run-first_hit :
    (parse : Text → Option ℕ) (db : Db) (calls : List Call) (id : ℕ) (a : Alert)
    → find_alert id db.alerts ≡ some a
    → id < db.next_id
    → is_spared a calls ≡ true
    → a.triggered_at ≡ none
    → find_alert id (run parse db calls).1.alerts ≡ some (settled a (first_hit a calls))
unfolding run is_spared first_hit
run-first_hit parse db [] id a here old spared fresh_ = here
run-first_hit parse db (c ∷ cs) id a here old spared fresh_ =
    let (found, known) = step-find_alert parse db c id a here old (ground (arith, spared)) in
    let rest : is_spared a cs ≡ true = ground (arith, spared) in
    elim (Option-cases (hit a c)) [
      | inl e ↦
          run-first_hit parse (step parse db c).1 cs id a
            (found ∙ ap some (after_call-pending a c fresh_ ∙ ap (settled a) e)) known rest fresh_
          ∙ rw e refl
      | inr (h, e) ↦
          run-triggered parse (step parse db c).1 cs id (settled a (some h))
            (found ∙ ap some (after_call-pending a c fresh_ ∙ ap (settled a) e)) known
            (is_spared-settled a (some h) cs ∙ rest) (settled-triggered a h)
          ∙ rw e refl
    ]
