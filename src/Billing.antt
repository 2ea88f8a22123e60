-- ===== src/Billing.antt =====
-- Loupe Pro: the plan kept in step with Stripe, buying it, and what it allows (billing_service.py and
-- entitlement_service.py of app/services).
pub mod Subscription
pub mod Checkout
pub mod Entitlement
mod Tests
