-- ===== src/Billing/Subscription/Handlers.antt =====
-- The webhook's handlers of a checkout and of a failed payment, and the dispatch (billing_service.py).
use loupe_backend.Prelude.{
  ℕ, suc, ◌-◌, ◌/◌, String, Bool, true, Option, none, some, List, [], ◌∷◌, ◌++◌, str_eq, ltb,
  if◌then◌else◌,
}
use loupe_backend.Billing.Subscription.{
  User, Subscription, Session, Invoice, Event, Notice, Handled, done, raises, is_pro, or_now,
  plan_notices, apply_to, Error, stripe_error, Lookup, user_by_customer, find_id, save, saved,
  apply_subscription, pro, checkout_session_completed, subscription_created, subscription_updated,
  subscription_deleted, invoice_payment_failed, other_event, payment_failed, not_configured,
  multiple_results, missing, several, found,
}

-- A checkout without a subscription makes the user Pro.
unfoldable pub upgraded : User → String → ℕ → User × List Notice
unfolding plan_notices is_pro
upgraded u key now = (
  record u { plan = pro; pro_since = or_now u.pro_since now },
  plan_notices (is_pro u) true u.id key,
)

-- The user that a session names, by the id that was stamped on it.
abbrev pub by_reference : Option ℕ → List User → Option User
by_reference none us = none
by_reference (some i) us = find_id i us

unfoldable pub link : User → Option String → User
link u c = record u { stripe_customer_id = c }

-- `int(attempt_count or 1)`
abbrev attempts : Option ℕ → ℕ
attempts (some (suc n)) = suc n
attempts _ = 1

-- Whole days until the end of the paid period, while it lies ahead.
abbrev grace_days : Option ℕ → ℕ → Option ℕ
grace_days none now = none
grace_days (some t) now = if ltb now t then some ((t - now) / 86400) else none

abbrev pub warn_found : Lookup → List User → Invoice → ℕ → Handled
warn_found missing us i now = done us []
warn_found several us i now = raises us multiple_results
warn_found (found u) us i now =
    done us
      (payment_failed u.id i (attempts i.attempt_count) (grace_days u.pro_expires_at now) ∷ [])

unfoldable pub handle_payment_failed : List User → Invoice → ℕ → Handled
unfolding user_by_customer
handle_payment_failed us i now = warn_found (user_by_customer i.customer us) us i now

-- A text that Python takes for true.
abbrev pub present : Option String → Option String
present none = none
present (some s) = if str_eq s "" then none else some s

abbrev pub applied : User → Option Subscription → ℕ → Option (User × List Notice)
applied u none now = none
applied u (some s) now = some (apply_to u s now)

abbrev pub completed : Option (User × List Notice) → List User → Handled
completed none us = raises us stripe_error
completed (some p) us = saved p us

abbrev pub add_error : Option Error → List Error → List Error
add_error none es = es
add_error (some e) es = e ∷ es

-- Stripe's answer to a subscription's key at a time: none if the request raises.
module _ (retrieve : String → ℕ → Option Subscription) where
  abbrev pub settle_with : Option String → User → String → ℕ → Option (User × List Notice)
  settle_with none u key now = some (upgraded u key now)
  settle_with (some k) u key now = applied u (retrieve k now) now

  abbrev pub settle : User → Session → ℕ → Option (User × List Notice)
  settle u s now = settle_with (present s.subscription) u s.id now

  abbrev pub link_found : Option User → List User → Session → ℕ → Handled
  link_found none us s now = done us []
  link_found (some u) us s now = let v = link u s.customer in completed (settle v s now) (save v us)

  abbrev pub complete_found : Lookup → List User → Session → ℕ → Handled
  complete_found missing us s now = link_found (by_reference s.client_reference_id us) us s now
  complete_found several us s now = raises us multiple_results
  complete_found (found u) us s now = completed (settle u s now) us

  unfoldable pub handle_checkout_completed : List User → Session → ℕ → Handled
  unfolding apply_to upgraded link user_by_customer save find_id
  handle_checkout_completed us s now = complete_found (user_by_customer s.customer us) us s now

  abbrev pub dispatch : List User → Event → ℕ → Handled
  dispatch us (checkout_session_completed s) now = handle_checkout_completed us s now
  dispatch us (subscription_created s) now = apply_subscription us s now
  dispatch us (subscription_updated s) now = apply_subscription us s now
  dispatch us (subscription_deleted s) now = apply_subscription us s now
  dispatch us (invoice_payment_failed i) now = handle_payment_failed us i now
  dispatch us other_event now = done us []

  -- `handle_event`, where a Stripe key is configured or not
  unfoldable pub handle_event : Bool → List User → Event → ℕ → Handled
  unfolding handle_checkout_completed apply_subscription handle_payment_failed
  handle_event configured us e now =
      if configured then dispatch us e now else raises us not_configured

  -- Deliveries, each with its time: the users and the e-mails at the end, and the errors.
  unfoldable pub deliver :
      Bool → List User → List (ℕ × Event) → List User × List Notice × List Error
  unfolding handle_event
  deliver configured us [] = (us, [], [])
  deliver configured us ((t, e) ∷ es) =
      let h = handle_event configured us e t in
      let (us', ns, errors) = deliver configured h.users es in
      (us', h.notices ++ ns, add_error h.error errors)
