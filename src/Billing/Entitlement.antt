-- ===== src/Billing/Entitlement.antt =====
-- What a plan allows (app/services/entitlement_service.py). `enabled` is the flag subscriptions_enabled,
-- and the counts are those of the user's cards and alerts.
pub mod Limits
mod Tests
use loupe_backend.Prelude.{
  ℕ, Bool, true, false, ◌&&◌, ◌||◌, not, Option, none, some, ltb, leb, if◌then◌else◌,
}
use loupe_backend.Billing.Subscription.{User, is_pro}

pub record SiteConfig : Type 0 where
  pub gate_unlimited_cards : Bool
  pub gate_scanner_import : Bool
  pub gate_full_history : Bool
  pub gate_unlimited_alerts : Bool
  pub gate_statements : Bool
  pub free_card_limit : Option ℕ
  pub free_statement_limit : ℕ

pub record PlanFeatures : Type 0 where
  pub unlimited_cards : Bool
  pub scanner_import : Bool
  pub full_history : Bool
  pub unlimited_alerts : Bool
  pub statements : Bool
  pub pro_badge : Bool
  pub ai_search : Bool

pub record EntitlementsRead : Type 0 where
  pub effective_pro : Bool
  pub trialing : Bool
  pub subscriptions_enabled : Bool
  pub card_count : ℕ
  pub max_cards : Option ℕ
  pub free_statements : Option ℕ
  pub features : PlanFeatures

-- The HTTP answer of a gate: passed, or 402 with the limit that was reached, if any.
pub data Gate : Type 0 where
  open_ : Gate
  payment_required : Option ℕ → Gate

abbrev pub free_alert_limit : ℕ
free_alert_limit = 5

abbrev pub lasts : Option ℕ → ℕ → Bool
lasts none now = true
lasts (some t) now = ltb now t

-- `_plan_is_pro`
unfoldable pub plan_is_pro : User → ℕ → Bool
unfolding is_pro
plan_is_pro u now = is_pro u && lasts u.pro_expires_at now

-- `is_pro`, with the kill switch
unfoldable pub effective : Bool → User → ℕ → Bool
unfolding plan_is_pro
effective enabled u now = if not enabled then true else plan_is_pro u now

unfoldable pub entitlements_for : SiteConfig → Bool → User → ℕ → ℕ → EntitlementsRead
unfolding plan_is_pro
entitlements_for cfg enabled u cards now =
    let pro = not enabled || plan_is_pro u now in
    let unlimited = pro || not cfg.gate_unlimited_cards in
    let stated = pro || not cfg.gate_statements in
    record {
      effective_pro = pro;
      trialing = pro && u.pro_trialing;
      subscriptions_enabled = enabled;
      card_count = cards;
      max_cards = (if unlimited then none else cfg.free_card_limit);
      free_statements = (if stated then none else some cfg.free_statement_limit);
      features = record {
        unlimited_cards = unlimited;
        scanner_import = pro || not cfg.gate_scanner_import;
        full_history = pro || not cfg.gate_full_history;
        unlimited_alerts = pro || not cfg.gate_unlimited_alerts;
        statements = stated;
        pro_badge = pro;
        ai_search = pro;
      };
    }

unfoldable pub enforce_can_add_alert : SiteConfig → Bool → User → ℕ → ℕ → Gate
unfolding effective
enforce_can_add_alert cfg enabled u alerts now =
    if effective enabled u now
    then open_
    else if not cfg.gate_unlimited_alerts
    then open_
    else if leb free_alert_limit alerts
    then payment_required (some free_alert_limit)
    else open_

unfoldable pub enforce_ai_search : Bool → User → ℕ → Gate
unfolding effective
enforce_ai_search enabled u now = if effective enabled u now then open_ else payment_required none

abbrev pub within_limit : Option ℕ → ℕ → Gate
within_limit none cards = open_
within_limit (some l) cards = if leb l cards then payment_required (some l) else open_

unfoldable pub enforce_can_add_card : SiteConfig → Bool → User → ℕ → ℕ → Gate
unfolding effective
enforce_can_add_card cfg enabled u cards now =
    if effective enabled u now
    then open_
    else if not cfg.gate_unlimited_cards
    then open_
    else within_limit cfg.free_card_limit cards

-- `_notify_limit_reached`: whether an e-mail goes out, by the delivery log, and the log after it.
unfoldable pub notify_limit_reached : Gate → Bool → Bool × Bool
notify_limit_reached open_ already = (false, already)
notify_limit_reached (payment_required l) already = (not already, true)
