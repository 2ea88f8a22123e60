-- ===== src/Ocr/Budget/Cap.antt =====
-- How far a month's spending goes beyond the budget (budget.py).
use loupe_backend.Prelude.{
  ℕ, suc, ◌+◌, ◌*◌, ◌≤◌, ◌<◌, ◌≡◌, Bool, true, ◌&&◌, List, [], ◌∷◌, leb, ◌==◌, if◌then◌else◌,
}
use loupe_backend.Ocr.Budget.{Identification, month_total, Process, Event, step}
use loupe_backend.Ocr.Budget.Cache.{is_accurate, is_current}

-- What was spent in one month.
unfoldable pub spent : ℕ → List Identification → ℕ
spent m [] = 0
spent m (r ∷ rs) = let rest = spent m rs in if r.month == m then r.cost_usd + rest else rest

-- What the cap keeps, with at most k calls that wait for the provider: the cache is accurate, and current while
-- a call waits; no row is of a later month; and with the calls that wait no month goes further beyond the
-- budget than by the price of k calls.
pub record IsCapped (budget price k : ℕ) (p : Process) : Type 0 where
  pub accurate : is_accurate p.ledger.cache p.ledger.rows ≡ true
  pub current : 0 < p.waiting → is_current p.month p.ledger.cache p.ledger.rows ≡ true
  pub future : month_total (suc p.month) p.ledger.rows ≡ 0
  pub bounded : (m : ℕ) → spent m p.ledger.rows ≤ budget + price * k
  pub owed : (m : ℕ) → p.month ≤ m → spent m p.ledger.rows + price * p.waiting ≤ budget + price * k

abbrev less_waiting : ℕ → Process → Process
less_waiting n p = record p { waiting = n }

-- At most k calls wait for the provider at any time.
unfoldable pub all_waiting : ℕ → ℕ → ℕ → List Event → Process → Bool
unfolding step
all_waiting budget price k [] p = true
all_waiting budget price k (e ∷ es) p =
    let q = step budget price p e in leb q.waiting k && all_waiting budget price k es q
