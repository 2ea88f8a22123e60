-- ===== src/Billing/Checkout.antt =====
-- Buying and refunding Loupe Pro (app/services/billing_service.py). Stripe is a parameter: `create` is
-- Customer.create, which returns the new customer's id.
pub mod Trial
pub mod Refunds
use loupe_backend.Prelude.{
  ℕ, ◌-◌, String, Bool, ◌&&◌, ◌||◌, not, Option, none, some, List, [], ◌∷◌, str_eq, ltb,
  if◌then◌else◌, is_some,
}
use loupe_backend.Billing.Subscription.{User, save}
use loupe_backend.Billing.Subscription.Handlers.{present}

-- The settings that the code reads; an absent price or key is none.
pub record Settings : Type 0 where
  pub stripe_secret_key : Option String
  pub stripe_price_pro_monthly : Option String
  pub stripe_price_pro_yearly : Option String
  pub pro_trial_days : ℕ

-- What is asked of Stripe: a hosted session, or a subscription for the in-app form.
pub record Order : Type 0 where
  pub customer : String
  pub price : String
  pub trial_period_days : Option ℕ

pub data Answer : Type 0 where
  unprocessable no_price unavailable : Answer
  order : Order → Answer

unfoldable pub billing_configured : Settings → Bool
billing_configured s = is_some (present s.stripe_secret_key)

unfoldable pub price_id : Settings → String → Option String
price_id s interval =
    present
      (if str_eq interval "yearly" then s.stripe_price_pro_yearly else s.stripe_price_pro_monthly)

unfoldable pub trial_days : Settings → User → Option ℕ
trial_days s u =
    if ltb 0 s.pro_trial_days && not (is_some u.pro_since) then some s.pro_trial_days else none

-- `_price_id` raises when the price is missing.
unfoldable pub place : Option String → Settings → User → String → Answer
unfolding trial_days
place none s u c = no_price
place (some p) s u c =
    order (record { customer = c; price = p; trial_period_days = trial_days s u })

module _ (create : User → String) where
  abbrev pub customer_of : Option String → List User → User → String × List User
  customer_of (some c) us u = (c, us)
  customer_of none us u = (create u, save (record u { stripe_customer_id = some (create u) }) us)

  -- `_ensure_customer`
  unfoldable pub ensure_customer : List User → User → String × List User
  unfolding save
  ensure_customer us u = customer_of (present u.stripe_customer_id) us u

  -- `start_checkout` and `create_subscription`, up to the call of Stripe.
  unfoldable pub start_checkout : Settings → List User → User → String → Answer × List User
  unfolding billing_configured price_id place ensure_customer
  start_checkout s us u interval =
      if not (str_eq interval "monthly" || str_eq interval "yearly")
      then (unprocessable, us)
      else if not (billing_configured s)
      then (unavailable, us)
      else let (c, us') = ensure_customer us u in (place (price_id s interval) s u c, us')

-- A charge of `Charge.list`, with its amounts in cents.
pub record Charge : Type 0 where
  pub id : String
  pub paid : Bool
  pub refunded : Bool
  pub succeeded : Bool
  pub amount : ℕ
  pub amount_refunded : ℕ

pub data Refund : Type 0 where
  no_account not_configured nothing_refundable : Refund
  refund : Charge → Refund

unfoldable pub is_refundable : Charge → Bool
is_refundable c = c.paid && not c.refunded && c.succeeded && ltb 0 (c.amount - c.amount_refunded)

-- `next(…, None)`
unfoldable pub next_refundable : List Charge → Option Charge
unfolding is_refundable
next_refundable [] = none
next_refundable (c ∷ cs) = if is_refundable c then some c else next_refundable cs

abbrev pub refund_found : Option Charge → Refund
refund_found none = nothing_refundable
refund_found (some c) = refund c

unfoldable pub refund_of : Settings → (String → List Charge) → Option String → Refund
unfolding billing_configured next_refundable
refund_of s charges none = no_account
refund_of s charges (some c) =
    if billing_configured s then refund_found (next_refundable (charges c)) else not_configured

-- `refund_latest`; `charges` is what `Charge.list` answers for a customer, newest first, ten at most.
unfoldable pub refund_latest : Settings → (String → List Charge) → User → Refund
unfolding refund_of
refund_latest s charges u = refund_of s charges (present u.stripe_customer_id)
