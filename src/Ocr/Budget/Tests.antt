-- ===== src/Ocr/Budget/Tests.antt =====
-- Runs of the OCR budget.
use loupe_backend.Prelude.{◌≡◌, refl, true, none, List, [], ◌∷◌}
use loupe_backend.Ocr.Budget.{
  Identification, Ledger, Process, month_total, month_to_date, is_budget_exceeded,
  record_spend_increment, begin_identify, end_identify, Event, begins, ends, month_passes, step,
  run,
}
use loupe_backend.Ocr.Budget.Cap.{spent}

abbrev started : List Identification → Process
started rows = record { ledger = record { rows = rows; cache = none }; month = 3; waiting = 0 }

-- Two calls that overlap, one after them, and one that is blocked; then a call that began before the month
-- passed, and is billed to the new one.
abbrev spring : List Event
spring =
    begins 0
    ∷ begins 1
    ∷ ends 2 true
    ∷ begins 3
    ∷ ends 4 true
    ∷ begins 5
    ∷ month_passes
    ∷ ends 70 true
    ∷ begins 71
    ∷ []

spring-march : spent 3 (run 20 15 spring (started [])).ledger.rows ≡ 30
unfolding spent run step begin_identify end_identify is_budget_exceeded month_to_date month_total
    record_spend_increment
spring-march = refl

spring-april : spent 4 (run 20 15 spring (started [])).ledger.rows ≡ 15
unfolding spent run step begin_identify end_identify is_budget_exceeded month_to_date month_total
    record_spend_increment
spring-april = refl

-- Two calls that overlap both pass the check, so that the month ends beyond the budget by more than the price
-- of one.
overlap-spent :
    spent 3
      (run 10 15 (begins 0 ∷ begins 1 ∷ ends 2 true ∷ ends 3 true ∷ []) (started [])).ledger.rows
    ≡ 30
unfolding spent run step begin_identify end_identify is_budget_exceeded month_to_date month_total
    record_spend_increment
overlap-spent = refl

-- Without a cap the first increment in a process takes the place of the month's sum, so that the sum that
-- is read next leaves out what was spent before.
abbrev uncapped : Ledger
unfolding run step begin_identify end_identify is_budget_exceeded record_spend_increment
uncapped =
    (run 0 15 (begins 4 ∷ ends 4 true ∷ [])
      (started (record { month = 3; cost_usd = 40 } ∷ []))).ledger

uncapped-sum : (month_to_date 3 5 uncapped).0 ≡ 15
unfolding run step begin_identify end_identify is_budget_exceeded month_to_date
    record_spend_increment
uncapped-sum = refl
