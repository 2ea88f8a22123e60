-- ===== src/Market/Alerts/Announced.antt =====
-- That a price that satisfies an alert is announced (price_alert_service.py).
use loupe_backend.Prelude.{
  ℕ, ◌≤◌, ◌<◌, ◌≡◌, ap, ◌∙◌, inl, inr, Bool, true, false, Option, none, some, List, [], ◌∷◌, arith,
  ◌==◌, is_some, Bool-cases, Option-cases,
}
use loupe_backend.Prelude.Text.{Text}
use loupe_backend.Market.Alerts.{
  Alert, Db, trigger, is_due, fired_by, evaluate_for_card, Call, creating, deleting, observing,
  step, run,
}
use loupe_backend.Market.Alerts.Once.{times, times-append}
use loupe_backend.Market.Alerts.First.{
  find_alert, is_spared, hit, first_hit, step-find_alert, settled, after_call-pending,
}

abbrev is_due_row : ℕ → ℕ → Option Alert → Bool
is_due_row card price none = false
is_due_row card price (some a) = is_due card price a

times-fired_by :
    (id card price now : ℕ) (as_ : List Alert) (a : Alert)
    → find_alert id as_ ≡ some a
    → is_due card price a ≡ true
    → 1 ≤ times id (fired_by card price now as_)
unfolding find_alert times fired_by trigger
times-fired_by id card price now [] a here due = ground (arith, here)
times-fired_by id card price now (b ∷ as_) a here due =
    let rest = times-fired_by id card price now as_ a in
    elim (Bool-cases (b.id == id)) [
      | inl e ↦ ground (arith, e, due, ap (is_due_row card price) here)
      | inr e ↦ ground (arith, here, e, due, rest)
    ]

times-step :
    (parse : Text → Option ℕ) (db : Db) (c : Call) (id : ℕ) (a : Alert)
    → find_alert id db.alerts ≡ some a
    → a.triggered_at ≡ none
    → is_some (hit a c) ≡ true
    → 1 ≤ times id (step parse db c).0
unfolding hit evaluate_for_card is_due
times-step parse db (creating user p card meta now) id a here fresh_ some_ = ground (arith, some_)
times-step parse db (deleting user j) id a here fresh_ some_ = ground (arith, some_)
times-step parse db (observing card price now) id a here fresh_ some_ =
    times-fired_by id card price now db.alerts a here (ground (arith, some_, ap is_some fresh_))

-- A satisfying price is announced: once a pending alert's card is observed at a price that satisfies it,
-- and its owner does not delete it, the alert has been announced.
pub times-first_hit :
    (parse : Text → Option ℕ) (db : Db) (calls : List Call) (id : ℕ) (a : Alert)
    → find_alert id db.alerts ≡ some a
    → id < db.next_id
    → is_spared a calls ≡ true
    → a.triggered_at ≡ none
    → is_some (first_hit a calls) ≡ true
    → 1 ≤ times id (run parse db calls).0
unfolding run is_spared first_hit
times-first_hit parse db [] id a here old spared fresh_ some_ = ground (arith, some_)
times-first_hit parse db (c ∷ cs) id a here old spared fresh_ some_ =
    let (found, known) = step-find_alert parse db c id a here old (ground (arith, spared)) in
    let added = times-append id (step parse db c).0 (run parse (step parse db c).1 cs).0 in
    elim (Option-cases (hit a c)) [
      | inl e ↦
          (let after = after_call-pending a c fresh_ ∙ ap (settled a) e in
            ground (
              arith,
              added,
              times-first_hit parse (step parse db c).1 cs id a (found ∙ ap some after) known
                  (ground (arith, spared)) fresh_ (ground (arith, some_, ap is_some e)),
            ))
      | inr (h, e) ↦ ground (arith, added, times-step parse db c id a here fresh_ (ap is_some e))
    ]
