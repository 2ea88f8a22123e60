-- ===== src/Billing/Tests.antt =====
-- A member and a newcomer at Stripe's hands (app/services/billing_service.py).
use loupe_backend.Prelude.{
  ℕ, ◌+◌, ◌-◌, String, ◌≡◌, refl, Bool, true, false, Option, none, some, List, [], ◌∷◌, arith, ltb,
  if◌then◌else◌,
}
use loupe_backend.Billing.Subscription.Rows.{bit}
use loupe_backend.Billing.Subscription.{
  found, is_pending, is_active, free, pro, User, Subscription, Session, Event, active, canceled,
  subscription_updated, subscription_deleted, checkout_session_completed, apply_subscription,
  user_by_customer, find_id, count, has_customer, is_pro, period_end, missing, stripe_error,
}
use loupe_backend.Billing.Subscription.Handlers.{deliver, handle_checkout_completed}
use loupe_backend.Billing.Subscription.Sync.{IsSound, activations, cancellations, pro_bit, since}
use loupe_backend.Billing.Subscription.Webhook.{deliver_mail, since-deliver}
use loupe_backend.Billing.Subscription.Redelivery.{
  apply_subscription_twice, plan_follows_status, handle_checkout_completed_links, id_of,
}
use loupe_backend.Billing.Checkout.{
  Settings, Charge, refund, start_checkout, ensure_customer, refund_latest, billing_configured,
}
use loupe_backend.Billing.Checkout.Trial.{trial_of, no_second_trial, ensure_customer_once}
use loupe_backend.Billing.Checkout.Refunds.{Picks, refund_latest-Picks}

abbrev ada : User
ada = record {
  id = 1;
  plan = pro;
  pro_trialing = false;
  pro_since = some 100;
  pro_expires_at = some 900;
  stripe_customer_id = some "cus_ada";
  stripe_subscription_id = some "sub_ada";
}

abbrev bob : User
bob = record {
  id = 2;
  plan = free;
  pro_trialing = false;
  pro_since = none;
  pro_expires_at = none;
  stripe_customer_id = none;
  stripe_subscription_id = none;
}

abbrev users : List User
users = ada ∷ bob ∷ []

users-IsSound : IsSound users
unfolding find_id count is_pro has_customer
users-IsSound = record {
  ids = (refl, (refl, tt));
  customers = λ c e. ground arith;
  fair = ((λ h. refl, λ h. cc), ((λ h. cc, λ h. cc), tt));
}

abbrev ended : Subscription
ended = record {
  id = "sub_ada";
  customer = some "cus_ada";
  status = canceled;
  current_period_end = some 900;
  items = [];
}

abbrev opened : Subscription
opened = record {
  id = "sub_bob";
  customer = some "cus_bob";
  status = active;
  current_period_end = some 0;
  items = some 2000 ∷ [];
}

abbrev purchase : Session
purchase = record {
  id = "cs_1";
  customer = some "cus_bob";
  client_reference_id = some 2;
  subscription = some "sub_bob";
}

abbrev history : List (ℕ × Event)
history =
    (500, subscription_deleted ended)
    ∷ (510, checkout_session_completed purchase)
    ∷ (520, subscription_updated opened)
    ∷ []

-- Stripe answers from time 500 on.
abbrev retrieve : String → ℕ → Option Subscription
retrieve k now = if ltb now 500 then none else some opened

deliver_mail_example :
    let (us', ns, errors) = deliver retrieve true users history in
    activations 2 ns + pro_bit 2 users ≡ cancellations 2 ns + pro_bit 2 us'
deliver_mail_example = deliver_mail retrieve users history 2 users-IsSound

-- Bob's purchase is announced once, though the subscription is reported twice.
bob_is_told_once : activations 2 (deliver retrieve true users history).1 ≡ 1
unfolding deliver activations
bob_is_told_once = refl

ada_since : since 1 users ≡ some 100
unfolding since find_id
ada_since = refl

since-deliver_run : since 1 (deliver retrieve true users history).0 ≡ some 100
since-deliver_run = since-deliver retrieve users history 1 100 users-IsSound ada_since

ended_period : period_end ended ≡ some 900
unfolding period_end
ended_period = refl

apply_subscription_twice_run :
    let h = apply_subscription users ended 500 in
    apply_subscription h.users ended 700 ≡ record h { notices = [] }
apply_subscription_twice_run =
    apply_subscription_twice users ended 900 500 700 users-IsSound ended_period

-- Ada pays for a second subscription; her first one ends.
abbrev moved : User
moved = record ada { stripe_subscription_id = some "sub_ada_yearly" }

moved-IsSound : IsSound (moved ∷ bob ∷ [])
unfolding find_id count is_pro has_customer
moved-IsSound = record {
  ids = (refl, (refl, tt));
  customers = λ c e. ground arith;
  fair = ((λ h. refl, λ h. cc), ((λ h. cc, λ h. cc), tt));
}

moved_customer : user_by_customer (some "cus_ada") (moved ∷ bob ∷ []) ≡ found moved
unfolding user_by_customer
moved_customer = refl

plan_follows_status_example : pro_bit 1 (apply_subscription (moved ∷ bob ∷ []) ended 900).users ≡ (
    if is_pending ended.status then pro_bit 1 (moved ∷ bob ∷ []) else bit (is_active ended.status))
plan_follows_status_example =
    plan_follows_status (moved ∷ bob ∷ []) ended "cus_ada" 900 moved moved-IsSound refl
      moved_customer

moved_loses_pro : pro_bit 1 (apply_subscription (moved ∷ bob ∷ []) ended 900).users ≡ 0
unfolding apply_subscription pro_bit find_id
moved_loses_pro = refl

new_customer : user_by_customer (some "cus_bob") users ≡ missing
unfolding user_by_customer
new_customer = refl

bob_row : find_id 2 users ≡ some bob
unfolding find_id
bob_row = refl

handle_checkout_completed_links_run :
    id_of (
      user_by_customer
        (some "cus_bob")
        (handle_checkout_completed retrieve users purchase 510).users)
    ≡ some 2
handle_checkout_completed_links_run =
    handle_checkout_completed_links retrieve users purchase "cus_bob" 2 510 bob users-IsSound refl
      refl new_customer refl bob_row

abbrev settings : Settings
settings = record {
  stripe_secret_key = some "sk";
  stripe_price_pro_monthly = some "price_m";
  stripe_price_pro_yearly = none;
  pro_trial_days = 7;
}

abbrev create : User → String
create u = "cus_new"

abbrev lapsed : User
lapsed = record ada { plan = free; pro_expires_at = some 900 }

lapsed_row : find_id 1 (deliver retrieve true users history).0 ≡ some lapsed
unfolding deliver find_id
lapsed_row = refl

no_second_trial_example :
    trial_of
      (start_checkout create settings (deliver retrieve true users history).0 lapsed "monthly").0
    ≡ none
no_second_trial_example =
    no_second_trial create retrieve users history 1 100 settings lapsed "monthly" users-IsSound
      ada_since lapsed_row

-- A newcomer gets the trial.
bob_tries : trial_of (start_checkout create settings users bob "monthly").0 ≡ some 7
unfolding start_checkout
bob_tries = refl

abbrev registered : User
registered = record bob { stripe_customer_id = some "cus_new" }

registered_row : find_id 2 (ensure_customer create users bob).1 ≡ some registered
unfolding ensure_customer find_id
registered_row = refl

ensure_customer_once_run :
    ensure_customer create (ensure_customer create users bob).1 registered
    ≡ ensure_customer create users bob
ensure_customer_once_run =
    ensure_customer_once create users bob registered bob_row refl registered_row

abbrev charge : String → Bool → ℕ → Charge
charge id refunded left = record {
  id = id;
  paid = true;
  refunded = refunded;
  succeeded = true;
  amount = 499;
  amount_refunded = 499 - left;
}

abbrev charges : String → List Charge
charges k = charge "ch_3" true 499 ∷ charge "ch_2" false 499 ∷ charge "ch_1" false 499 ∷ []

configured : billing_configured settings ≡ true
unfolding billing_configured
configured = refl

refund_latest-Picks_run : Picks (charges "cus_ada") (refund_latest settings charges ada)
refund_latest-Picks_run = refund_latest-Picks settings charges ada "cus_ada" configured refl

second_charge : refund_latest settings charges ada ≡ refund (charge "ch_2" false 499)
unfolding refund_latest
second_charge = refl

-- Before that the request raises: the checkout fails, Bob's link to the customer stays and no mail is sent.
early :
    (deliver retrieve true users ((410, checkout_session_completed purchase) ∷ [])).2
    ≡ stripe_error ∷ []
unfolding deliver
early = refl
