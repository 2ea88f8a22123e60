-- ===== src/Billing/Entitlement/Limits.antt =====
-- The gates and the payload agree, and the free tier is bounded (entitlement_service.py).
use loupe_backend.Prelude.{
  ℕ, suc, ◌+◌, ◌≤◌, ◌≡◌, refl, inl, inr, Bool, true, false, ◌||◌, not, Option, none, some, List, [],
  ◌∷◌, arith, ltb, leb, if◌then◌else◌, Bool-cases, All,
}
use loupe_backend.Billing.Subscription.{User}
use loupe_backend.Billing.Entitlement.{
  SiteConfig, Gate, open_, payment_required, free_alert_limit, plan_is_pro, effective,
  entitlements_for, enforce_can_add_alert, enforce_ai_search, within_limit, enforce_can_add_card,
  notify_limit_reached,
}

abbrev pub is_open : Gate → Bool
is_open open_ = true
is_open (payment_required l) = false

effective_or : (e : Bool) (u : User) (now : ℕ) → effective e u now ≡ (not e || plan_is_pro u now)
unfolding effective
effective_or true u now = refl
effective_or false u now = refl

cards_shown :
    (p g : Bool) (o : Option ℕ) (cards : ℕ)
    → (if p then open_ else if not g then open_ else within_limit o cards)
      ≡ within_limit (if p || not g then none else o) cards
cards_shown true g o cards = refl
cards_shown false true o cards = refl
cards_shown false false o cards = refl

alerts_shown :
    (p g : Bool) (alerts : ℕ)
    → is_open (
        if p
        then open_
        else if not g
        then open_
        else if leb free_alert_limit alerts
        then payment_required (some free_alert_limit)
        else open_)
      ≡ (p || not g || ltb alerts free_alert_limit)
alerts_shown true g n = refl
alerts_shown false true n = ground arith
alerts_shown false false n = refl

search_shown : (p : Bool) → is_open (if p then open_ else payment_required none) ≡ p
search_shown true = refl
search_shown false = refl

-- What the client is shown is what is enforced: a card may be added exactly as far as the payload's
-- `max_cards` allows, an alert exactly if the payload has unlimited alerts or there are fewer than
-- five, and the search is open exactly if the payload has it.
pub gates_shown :
    (cfg : SiteConfig) (enabled : Bool) (u : User) (cards alerts now : ℕ)
    → let e = entitlements_for cfg enabled u cards now in
      (enforce_can_add_card cfg enabled u cards now ≡ within_limit e.max_cards e.card_count)
      × (is_open (enforce_can_add_alert cfg enabled u alerts now)
          ≡ (e.features.unlimited_alerts || ltb alerts free_alert_limit))
      × (is_open (enforce_ai_search enabled u now) ≡ e.features.ai_search)
unfolding entitlements_for enforce_can_add_card enforce_can_add_alert enforce_ai_search
gates_shown cfg enabled u cards alerts now =
    let p = not enabled || plan_is_pro u now in
    rw (effective_or enabled u now) (
      cards_shown p cfg.gate_unlimited_cards cfg.free_card_limit cards,
      alerts_shown p cfg.gate_unlimited_alerts alerts,
      search_shown p,
    )

-- Attempts to add a card, each at a time and by the user as the row then is: the cards and the e-mails at the end.
unfoldable pub add_cards : SiteConfig → Bool → ℕ → Bool → List (ℕ × User) → ℕ × ℕ
unfolding notify_limit_reached
add_cards cfg enabled cards already [] = (cards, 0)
add_cards cfg enabled cards already ((t, u) ∷ ps) =
    let g = enforce_can_add_card cfg enabled u cards t in
    let (mail, already') = notify_limit_reached g already in
    let (n, mails) = add_cards cfg enabled (if is_open g then suc cards else cards) already' ps in
    (n, (if mail then suc mails else mails))

gate_free :
    (cfg : SiteConfig) (u : User) (l cards t : ℕ)
    → cfg.gate_unlimited_cards ≡ true
    → cfg.free_card_limit ≡ some l
    → effective true u t ≡ false
    → enforce_can_add_card cfg true u cards t
      ≡ (if leb l cards then payment_required (some l) else open_)
unfolding enforce_can_add_card
gate_free cfg u l cards t g o f = rw (f, g, o) refl

-- What the free tier holds: while a user is not Pro, the switch is on and cards are gated with a limit that
-- the user's cards do not exceed, no attempts to add cards exceed it, and the notice of a
-- full vault is sent at most once, and never again once the log has it.
pub add_cards-bounded :
    (cfg : SiteConfig) (l cards : ℕ) (already : Bool) (ps : List (ℕ × User))
    → cfg.gate_unlimited_cards ≡ true
    → cfg.free_card_limit ≡ some l
    → All (λ p. effective true p.1 p.0 ≡ false) ps
    → cards ≤ l
    → let (n, mails) = add_cards cfg true cards already ps in
      (n ≤ l) × (mails + (if already then 1 else 0) ≤ 1)
unfolding add_cards
add_cards-bounded cfg l cards already [] g o a b = (b, ground arith)
add_cards-bounded cfg l cards already ((t, u) ∷ ps) g o a b =
    rw (gate_free cfg u l cards t g o a.0) (elim (Bool-cases (leb l cards)) [
      | inl full ↦
          rw full
            (let (n, m) = add_cards-bounded cfg l cards true ps g o a.1 b in (n, ground (arith, m)))
      | inr room ↦
          rw room (add_cards-bounded cfg l (suc cards) already ps g o a.1 (ground (arith, room)))
    ])
