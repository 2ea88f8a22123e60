-- ===== src/Billing/Subscription.antt =====
-- The webhook that keeps a user's plan in step with Stripe (app/services/billing_service.py), and the
-- user's columns it reads and writes. Stripe's API is a parameter.
pub mod Sync
pub mod Lookups
pub mod Webhook
pub mod Redelivery
pub mod Rows
pub mod Handlers
use loupe_backend.Prelude.{
  ℕ, suc, String, Bool, true, false, ◌&&◌, ◌||◌, not, Option, none, some, List, [], ◌∷◌, str_eq,
  ltb, ◌==◌, if◌then◌else◌, is_some,
}

pub data Plan : Type 0 where
  free pro : Plan

-- The billing columns of `users`; a time is a number of seconds.
pub record User : Type 0 where
  pub id : ℕ
  pub plan : Plan
  pub pro_trialing : Bool
  pub pro_since : Option ℕ
  pub pro_expires_at : Option ℕ
  pub stripe_customer_id : Option String
  pub stripe_subscription_id : Option String

-- Stripe's statuses; `other_status` is any other text, or none at all.
pub data Status : Type 0 where
  incomplete incomplete_expired active past_due canceled unpaid trialing paused other_status :
      Status

-- `sub`: its items are given by their `current_period_end`.
pub record Subscription : Type 0 where
  pub id : String
  pub customer : Option String
  pub status : Status
  pub current_period_end : Option ℕ
  pub items : List (Option ℕ)

-- The object of `checkout.session.completed`.
pub record Session : Type 0 where
  pub id : String
  pub customer : Option String
  pub client_reference_id : Option ℕ
  pub subscription : Option String

-- The object of `invoice.payment_failed`; the amount is in cents.
pub record Invoice : Type 0 where
  pub id : String
  pub customer : Option String
  pub amount_due : Option ℕ
  pub attempt_count : Option ℕ
  pub next_payment_attempt : Option ℕ

pub data Event : Type 0 where
  checkout_session_completed : Session → Event
  subscription_created subscription_updated subscription_deleted : Subscription → Event
  invoice_payment_failed : Invoice → Event
  other_event : Event

-- The e-mails, each to a user and with what its idempotency key is made of.
pub data Notice : Type 0 where
  pro_activated pro_canceled : ℕ → String → Notice
  payment_failed : ℕ → Invoice → ℕ → Option ℕ → Notice

pub data Error : Type 0 where
  not_configured multiple_results stripe_error : Error

pub record Handled : Type 0 where
  pub users : List User
  pub notices : List Notice
  pub error : Option Error

abbrev pub done : List User → List Notice → Handled
done us ns = record { users = us; notices = ns; error = none }

abbrev pub raises : List User → Error → Handled
raises us e = record { users = us; notices = []; error = some e }

-- `_PENDING_STATUSES`
unfoldable pub is_pending : Status → Bool
is_pending incomplete = true
is_pending incomplete_expired = true
is_pending _ = false

-- `_ACTIVE_STATUSES`
unfoldable pub is_active : Status → Bool
is_active active = true
is_active trialing = true
is_active past_due = true
is_active _ = false

unfoldable pub is_trialing : Status → Bool
is_trialing trialing = true
is_trialing _ = false

-- `user.plan == "pro"`
unfoldable pub is_pro : User → Bool
is_pro u = elim u.plan [ free ↦ false | pro ↦ true ]

-- A number that Python takes for true.
abbrev truthy : Option ℕ → Option ℕ
truthy (some (suc n)) = some (suc n)
truthy _ = none

abbrev first : List (Option ℕ) → Option ℕ
first [] = none
first (i ∷ is) = i

unfoldable pub period_end : Subscription → Option ℕ
period_end s = elim (truthy s.current_period_end) [
  | none ↦ truthy (first s.items)
  | some t ↦ some t
]

-- `t or now`
abbrev pub or_now : Option ℕ → ℕ → Option ℕ
or_now none now = some now
or_now (some t) now = some t

-- `_apply_subscription` on the row, below its early return.
unfoldable pub reconciled : User → Subscription → ℕ → User
unfolding is_active is_trialing is_pro period_end
reconciled u s now =
    if is_active s.status
    then record u {
      stripe_subscription_id = some s.id;
      pro_trialing = is_trialing s.status;
      pro_since =
          (if not (is_pro u) || not (is_some u.pro_since)
            then or_now u.pro_since now
            else u.pro_since);
      plan = pro;
      pro_expires_at = period_end s;
    }
    else record u {
      stripe_subscription_id = some s.id;
      pro_trialing = false;
      plan = free;
      pro_expires_at = or_now (period_end s) now;
    }

-- The e-mails of a change of plan.
unfoldable pub plan_notices : Bool → Bool → ℕ → String → List Notice
plan_notices was_pro now_pro id key =
    if now_pro && not was_pro
    then pro_activated id key ∷ []
    else if was_pro && not now_pro
    then pro_canceled id key ∷ []
    else []

unfoldable pub apply_to : User → Subscription → ℕ → User × List Notice
unfolding is_pending reconciled plan_notices is_active is_pro
apply_to u s now =
    if is_pending s.status
    then (u, [])
    else (reconciled u s now, plan_notices (is_pro u) (is_active s.status) u.id s.id)

unfoldable pub has_customer : String → User → Bool
has_customer c u = elim u.stripe_customer_id [ none ↦ false | some d ↦ str_eq d c ]

-- The rows that `_user_by_customer` selects: how many, and the first.
unfoldable pub count : String → List User → ℕ
unfolding has_customer
count c [] = 0
count c (u ∷ us) = let n = count c us in if has_customer c u then suc n else n

unfoldable pub find_customer : String → List User → Option User
unfolding has_customer
find_customer c [] = none
find_customer c (u ∷ us) = if has_customer c u then some u else find_customer c us

pub data Lookup : Type 0 where
  missing several : Lookup
  found : User → Lookup

abbrev pub one_or_none : ℕ → Option User → Lookup
one_or_none n none = missing
one_or_none n (some u) = if ltb 1 n then several else found u

unfoldable pub user_by_customer : Option String → List User → Lookup
unfolding count find_customer
user_by_customer none us = missing
user_by_customer (some c) us =
    if str_eq c "" then missing else one_or_none (count c us) (find_customer c us)

-- `db.get(User, id)`
unfoldable pub find_id : ℕ → List User → Option User
find_id i [] = none
find_id i (u ∷ us) = if u.id == i then some u else find_id i us

-- The row of this user, written back.
unfoldable pub save : User → List User → List User
save u [] = []
save u (v ∷ vs) = if v.id == u.id then u ∷ vs else v ∷ save u vs

abbrev pub saved : User × List Notice → List User → Handled
saved (u, ns) us = done (save u us) ns

abbrev pub apply_found : Lookup → List User → Subscription → ℕ → Handled
apply_found missing us s now = done us []
apply_found several us s now = raises us multiple_results
apply_found (found u) us s now = saved (apply_to u s now) us

unfoldable pub apply_subscription : List User → Subscription → ℕ → Handled
unfolding apply_to user_by_customer save
apply_subscription us s now = apply_found (user_by_customer s.customer us) us s now
