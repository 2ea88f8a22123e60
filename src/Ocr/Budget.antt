-- ===== src/Ocr/Budget.antt =====
-- The monthly OCR budget (app/services/ocr/budget.py) and its use by the identification of a card
-- (app/services/identification/card_identifier.py), in one process. Identifications overlap at their calls of
-- the provider; the sum and its caching are one step, as are the increment and the row. Amounts are counts of a small unit of money, months are numbered.
mod Cache
pub mod Cap
mod Tests
use loupe_backend.Prelude.{
  ℕ, zero, suc, ◌+◌, ◌-◌, Bool, true, false, ◌&&◌, not, Option, none, some, List, [], ◌∷◌, ltb, leb,
  ◌==◌, if◌then◌else◌,
}

pub record CachedSpend : Type 0 where
  pub month_key : ℕ
  pub spend_usd : ℕ
  pub fetched_at : ℕ

-- A row of the identifications: the month it was created in, and its cost.
pub record Identification : Type 0 where
  pub month : ℕ
  pub cost_usd : ℕ

pub record Ledger : Type 0 where
  pub rows : List Identification
  pub cache : Option CachedSpend

abbrev pub cache_ttl_seconds : ℕ
cache_ttl_seconds = 60

-- The sum over the rows that were created in the month or after it.
unfoldable pub month_total : ℕ → List Identification → ℕ
month_total m [] = 0
month_total m (r ∷ rs) =
    let rest = month_total m rs in if leb m r.month then r.cost_usd + rest else rest

abbrev fetch : ℕ → ℕ → Ledger → ℕ × Ledger
fetch m now db =
    let spend = month_total m db.rows in
    (
      spend,
      record db { cache = some (record { month_key = m; spend_usd = spend; fetched_at = now }) },
    )

abbrev pub cached_or_fetch : Option CachedSpend → ℕ → ℕ → Ledger → ℕ × Ledger
cached_or_fetch none m now db = fetch m now db
cached_or_fetch (some c) m now db =
    if c.month_key == m && ltb (now - c.fetched_at) cache_ttl_seconds
    then (c.spend_usd, db)
    else fetch m now db

-- `get_month_to_date_spend_usd`
unfoldable pub month_to_date : ℕ → ℕ → Ledger → ℕ × Ledger
unfolding month_total
month_to_date m now db = cached_or_fetch db.cache m now db

-- `is_budget_exceeded`
unfoldable pub is_budget_exceeded : ℕ → ℕ → ℕ → Ledger → Bool × Ledger
unfolding month_to_date
is_budget_exceeded budget m now db =
    if budget == 0
    then (false, db)
    else (let (spend, after) = month_to_date m now db in (leb budget spend, after))

abbrev pub incremented : ℕ → ℕ → ℕ → Option CachedSpend → CachedSpend
incremented amount m now none = record { month_key = m; spend_usd = amount; fetched_at = now }
incremented amount m now (some c) =
    if c.month_key == m
    then record c { spend_usd = c.spend_usd + amount }
    else record { month_key = m; spend_usd = amount; fetched_at = now }

-- `record_spend_increment`
unfoldable pub record_spend_increment : ℕ → ℕ → ℕ → Ledger → Ledger
record_spend_increment amount m now db =
    if amount == 0 then db else record db { cache = some (incremented amount m now db.cache) }

-- A process that identifies cards: the month it is in, and how many of its calls wait for the provider.
pub record Process : Type 0 where
  pub ledger : Ledger
  pub month : ℕ
  pub waiting : ℕ

abbrev pub persist : ℕ → ℕ → Ledger → Ledger
persist m cost db = record db { rows = record { month = m; cost_usd = cost } ∷ db.rows }

abbrev pub bill : ℕ → ℕ → ℕ → Ledger → Ledger
bill price m now db = persist m price (record_spend_increment price m now db)

-- A call that is blocked is stored without a cost; another one waits for the provider.
abbrev pub admit : Process → Bool × Ledger → Process
admit p (true, db) = record p { ledger = persist p.month 0 db }
admit p (false, db) = record p { ledger = db; waiting = suc p.waiting }

-- `identify` up to its call of the provider.
unfoldable pub begin_identify : ℕ → ℕ → Process → Process
unfolding is_budget_exceeded
begin_identify budget now p = admit p (is_budget_exceeded budget p.month now p.ledger)

abbrev pub pay : ℕ → ℕ → Bool → ℕ → Ledger → Ledger
pay price now answered m db = if answered then bill price m now db else persist m 0 db

abbrev pub settled : ℕ → ℕ → Bool → ℕ → Process → Process
settled price now answered zero p = p
settled price now answered (suc n) p = record p {
  ledger = pay price now answered p.month p.ledger;
  waiting = n;
}

-- `identify` from the provider's answer, or its failure, of any call that waits.
unfoldable pub end_identify : ℕ → ℕ → Bool → Process → Process
unfolding record_spend_increment
end_identify price now answered p = settled price now answered p.waiting p

-- What happens in a process, with the clock's time.
pub data Event : Type 0 where
  begins : ℕ → Event
  ends : ℕ → Bool → Event
  month_passes : Event

unfoldable pub step : ℕ → ℕ → Process → Event → Process
unfolding begin_identify end_identify
step budget price p (begins now) = begin_identify budget now p
step budget price p (ends now answered) = end_identify price now answered p
step budget price p month_passes = record p { month = suc p.month }

unfoldable pub run : ℕ → ℕ → List Event → Process → Process
unfolding step
run budget price [] p = p
run budget price (e ∷ es) p = run budget price es (step budget price p e)
