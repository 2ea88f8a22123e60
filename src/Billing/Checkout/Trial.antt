-- ===== src/Billing/Checkout/Trial.antt =====
-- Who gets a free trial, and under which Stripe customer (billing_service.py).
use loupe_backend.Prelude.{
  ℕ, String, ◌≡◌, refl, inl, inr, true, ◌||◌, not, Option, none, some, List, arith, str_eq, ==_iff,
  Bool-cases,
}
use loupe_backend.Billing.Subscription.{User, Subscription, Event, find_id, save}
use loupe_backend.Billing.Subscription.Handlers.{present, deliver}
use loupe_backend.Billing.Subscription.Rows.{find_id-save}
use loupe_backend.Billing.Subscription.Sync.{IsSound, since}
use loupe_backend.Billing.Subscription.Webhook.{since-deliver}
use loupe_backend.Billing.Checkout.{
  Settings, Answer, order, billing_configured, price_id, trial_days, ensure_customer, customer_of,
  place, start_checkout,
}

-- The trial that an order grants.
abbrev pub trial_of : Answer → Option ℕ
trial_of (order o) = o.trial_period_days
trial_of _ = none

trial_of-place :
    (p : Option String) (s : Settings) (u : User) (c : String)
    → trial_days s u ≡ none
    → trial_of (place p s u c) ≡ none
unfolding place
trial_of-place none s u c h = refl
trial_of-place (some p) s u c h = h

no_trial :
    (s : Settings) (us : List User) (i t : ℕ) (v : User)
    → find_id i us ≡ some v
    → since i us ≡ some t
    → trial_days s v ≡ none
unfolding trial_days since
no_trial s us i t v row h = ground (arith, row, h)

module _ (create : User → String) where
  trial_of-start_checkout :
      (s : Settings) (us : List User) (u : User) (interval : String)
      → trial_days s u ≡ none
      → trial_of (start_checkout create s us u interval).0 ≡ none
  unfolding start_checkout
  trial_of-start_checkout s us u interval h =
      elim (Bool-cases (not (str_eq interval "monthly" || str_eq interval "yearly"))) [
        | inl e ↦ rw e refl
        | inr e ↦ rw e (elim (Bool-cases (not (billing_configured s))) [
          | inl c ↦ rw c refl
          | inr c ↦
              rw c (trial_of-place (price_id s interval) s u (ensure_customer create us u).0 h)
        ])
      ]

  -- Nobody gets a second trial: whatever Stripe delivers to a sound table in which a user has a
  -- start date of Pro, a checkout of that user's row afterwards grants no free days.
  pub no_second_trial :
      (retrieve : String → ℕ → Option Subscription) (us : List User) (es : List (ℕ × Event))
      (i t : ℕ)
      → (s : Settings) (v : User) (interval : String) → IsSound us
      → since i us ≡ some t
      → find_id i (deliver retrieve true us es).0 ≡ some v
      → trial_of (start_checkout create s (deliver retrieve true us es).0 v interval).0 ≡ none
  no_second_trial retrieve us es i t s v interval sound h row =
      let us' = (deliver retrieve true us es).0 in
      trial_of-start_checkout s us' v interval
        (no_trial s us' i t v row (since-deliver retrieve us es i t sound h))

  customer_of_once :
      (us : List User) (u v : User) (o : Option String)
      → present u.stripe_customer_id ≡ o
      → find_id u.id us ≡ some u
      → present (some (create u)) ≡ some (create u)
      → find_id u.id (customer_of create o us u).1 ≡ some v
      → customer_of create (present v.stripe_customer_id) (customer_of create o us u).1 v
        ≡ customer_of create o us u
  unfolding save
  customer_of_once us u v (some c) e row new h =
      let same : v ≡ u = ground (arith, h, row) in rw (same, e) refl
  customer_of_once us u v none e row new h =
      let w = record u { stripe_customer_id = some (create u) } in
      let at : find_id u.id (save w us) ≡ some w =
        ground (arith, find_id-save u.id u w us row, ==_iff u.id u.id) in
      let same : v ≡ w = ground (arith, h, at) in rw (same, new) refl

  -- One customer per user: when the row of a user is in the table, and Stripe's new ids are not
  -- empty, a second checkout finds the customer of the first in the row, and creates none.
  pub ensure_customer_once :
      (us : List User) (u v : User)
      → find_id u.id us ≡ some u
      → present (some (create u)) ≡ some (create u)
      → find_id u.id (ensure_customer create us u).1 ≡ some v
      → ensure_customer create (ensure_customer create us u).1 v ≡ ensure_customer create us u
  unfolding ensure_customer
  ensure_customer_once us u v row new h =
      customer_of_once us u v (present u.stripe_customer_id) refl row new h
