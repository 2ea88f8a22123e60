-- ===== src/Billing/Entitlement/Tests.antt =====
-- A free user at the limit of the vault (entitlement_service.py).
use loupe_backend.Prelude.{
  ℕ, ◌+◌, ◌≤◌, ◌≡◌, refl, true, false, ◌||◌, none, some, List, [], ◌∷◌, arith, ltb,
}
use loupe_backend.Billing.Subscription.{free, User}
use loupe_backend.Billing.Entitlement.{
  SiteConfig, payment_required, open_, free_alert_limit, within_limit, effective, entitlements_for,
  enforce_can_add_card, enforce_can_add_alert, enforce_ai_search,
}
use loupe_backend.Billing.Entitlement.Limits.{is_open, gates_shown, add_cards, add_cards-bounded}

abbrev user : User
user = record {
  id = 1;
  plan = free;
  pro_trialing = false;
  pro_since = none;
  pro_expires_at = none;
  stripe_customer_id = none;
  stripe_subscription_id = none;
}

abbrev cfg : SiteConfig
cfg = record {
  gate_unlimited_cards = true;
  gate_scanner_import = true;
  gate_full_history = false;
  gate_unlimited_alerts = true;
  gate_statements = true;
  free_card_limit = some 2;
  free_statement_limit = 1;
}

gates_shown_run :
    let e = entitlements_for cfg true user 2 10 in
    (enforce_can_add_card cfg true user 2 10 ≡ within_limit e.max_cards e.card_count)
    × (is_open (enforce_can_add_alert cfg true user 4 10)
        ≡ (e.features.unlimited_alerts || ltb 4 free_alert_limit))
    × (is_open (enforce_ai_search true user 10) ≡ e.features.ai_search)
gates_shown_run = gates_shown cfg true user 2 4 10

refused : enforce_can_add_card cfg true user 2 10 ≡ payment_required (some 2)
unfolding enforce_can_add_card
refused = refl

kill_switch : enforce_can_add_card cfg false user 2 10 ≡ open_
unfolding enforce_can_add_card
kill_switch = refl

abbrev tries : List (ℕ × User)
tries = (10, user) ∷ (11, user) ∷ (12, user) ∷ []

free_then : (t : ℕ) → effective true user t ≡ false
unfolding effective
free_then t = refl

cards_bounded : let (n, mails) = add_cards cfg true 1 false tries in (n ≤ 2) × (mails + 0 ≤ 1)
cards_bounded =
    add_cards-bounded cfg 2 1 false tries refl refl
      (free_then 10, (free_then 11, (free_then 12, tt))) (omega arith)

one_card_one_mail : add_cards cfg true 1 false tries ≡ (2, 1)
unfolding add_cards enforce_can_add_card
one_card_one_mail = refl
