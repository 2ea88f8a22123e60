-- ===== src/Ocr/Budget/Cache.antt =====
-- That the cached sum of the OCR budget is the sum of the rows (budget.py).
use loupe_backend.Prelude.{
  ℕ, ◌-◌, ◌≡◌, refl, sym, ap, subst, ◌∙◌, Bool, true, false, ◌&&◌, ◌||◌, Option, none, some, List,
  ◌∷◌, arith, ltb, ◌==◌, ==_iff, if_elim,
}
use loupe_backend.Ocr.Budget.{
  CachedSpend, Identification, Ledger, cache_ttl_seconds, month_total, cached_or_fetch, incremented,
  record_spend_increment, persist, bill,
}

-- A cached sum is that of the rows.
abbrev pub is_accurate : Option CachedSpend → List Identification → Bool
is_accurate none rows = true
is_accurate (some c) rows = c.spend_usd == month_total c.month_key rows

abbrev pub key_is : ℕ → Option CachedSpend → Bool
key_is m none = false
key_is m (some c) = c.month_key == m

-- A check answers by the rows, leaves them, and leaves an accurate cache of the month.
abbrev pub IsChecked : ℕ → Ledger → ℕ × Ledger → Type 0
IsChecked m db r =
    (r.0 ≡ month_total m db.rows)
    × (r.1.rows ≡ db.rows)
    × (is_accurate r.1.cache db.rows ≡ true)
    × (key_is m r.1.cache ≡ true)

pub cached_or_fetch-IsChecked :
    (o : Option CachedSpend) (m now : ℕ) (db : Ledger)
    → db.cache ≡ o
    → is_accurate o db.rows ≡ true
    → IsChecked m db (cached_or_fetch o m now db)
cached_or_fetch-IsChecked none m now db e ok = (refl, refl, ground arith, ground arith)
cached_or_fetch-IsChecked (some c) m now db e ok =
    if_elim {A = ℕ × Ledger} (IsChecked m db)
      (c.month_key == m && ltb (now - c.fetched_at) cache_ttl_seconds) _ _
      (λ hit.
        (let key : c.month_key ≡ m = ground (arith, hit) in
          (
            (==_iff c.spend_usd (month_total c.month_key db.rows)).0 ok
                ∙ ap (λ k. month_total k db.rows) key,
            refl,
            ap (λ x. is_accurate x db.rows) e ∙ ok,
            ap (key_is m) e ∙ (==_iff c.month_key m).1 key,
          )))
      (λ _. (refl, refl, ground arith, ground arith))

pub is_accurate_free :
    (o : Option CachedSpend) (rows : List Identification) (m : ℕ)
    → is_accurate o rows ≡ true
    → is_accurate o (record { month = m; cost_usd = 0 } ∷ rows) ≡ true
unfolding month_total
is_accurate_free none rows m ok = refl
is_accurate_free (some c) rows m ok = ground (arith, ok)

-- The cache is of the month, or the month has no costs yet.
abbrev pub is_current : ℕ → Option CachedSpend → List Identification → Bool
is_current m o rows = key_is m o || month_total m rows == 0

is_accurate-incremented :
    (o : Option CachedSpend) (rows : List Identification) (m now price : ℕ)
    → is_accurate o rows ≡ true
    → is_current m o rows ≡ true
    → is_accurate (some (incremented price m now o)) (record { month = m; cost_usd = price } ∷ rows)
      ≡ true
unfolding month_total
is_accurate-incremented none rows m now price ok current = ground (arith, current)
is_accurate-incremented (some c) rows m now price ok current =
    ground (arith, ok, current, ap (λ k. month_total k rows), ==_iff c.month_key m)

key_is-incremented :
    (o : Option CachedSpend) (m now price : ℕ) → key_is m (some (incremented price m now o)) ≡ true
key_is-incremented none m now price = ground arith
key_is-incremented (some c) m now price = ground arith

-- What a bill leaves: an accurate cache that is current.
abbrev pub IsBilled : ℕ → Ledger → Type 0
IsBilled m db = (is_accurate db.cache db.rows ≡ true) × (is_current m db.cache db.rows ≡ true)

IsBilled-free : (m : ℕ) (db : Ledger) → IsBilled m db → IsBilled m (persist m 0 db)
unfolding month_total
IsBilled-free m db (ok, current) = (is_accurate_free db.cache db.rows m ok, ground (arith, current))

pub IsBilled-bill :
    (price m now : ℕ) (db : Ledger) → IsBilled m db → IsBilled m (bill price m now db)
unfolding record_spend_increment
IsBilled-bill price m now db s =
    if_elim {A = Ledger} (λ d. IsBilled m (persist m price d)) (price == 0) _ _
      (λ none_.
        subst (λ x. IsBilled m (persist m x db)) (sym ((==_iff price 0).0 none_))
          (IsBilled-free m db s))
      (λ _. (
        is_accurate-incremented db.cache db.rows m now price s.0 s.1,
        ground (arith, key_is-incremented db.cache m now price),
      ))
