-- ===== src/Billing/Checkout/Refunds.antt =====
-- Which charge a refund gives back (billing_service.py, `refund_latest`).
use loupe_backend.Prelude.{
  String, ◌≡◌, refl, ◌⊎◌, inl, inr, true, false, Option, none, some, List, [], ◌∷◌, Bool-cases, All,
}
use loupe_backend.Billing.Subscription.{User}
use loupe_backend.Billing.Subscription.Handlers.{present}
use loupe_backend.Billing.Checkout.{
  Settings, billing_configured, Charge, Refund, no_account, not_configured, nothing_refundable,
  refund, is_refundable, next_refundable, refund_found, refund_of, refund_latest,
}

-- The charge `c` is refundable, stands in the list, and nothing before it is refundable.
abbrev pub First : Charge → List Charge → Type 0
First c [] = true ≡ false
First c (d ∷ ds) = ((c ≡ d) × (is_refundable d ≡ true)) ⊎ ((is_refundable d ≡ false) × First c ds)

-- What a refund answers, of the charges of the customer.
abbrev pub Picks : List Charge → Refund → Type 0
Picks cs (refund c) = First c cs
Picks cs nothing_refundable = All (λ c. is_refundable c ≡ false) cs
Picks cs no_account = true ≡ false
Picks cs not_configured = true ≡ false

further :
    (c : Charge) (cs : List Charge) (o : Option Charge)
    → Picks cs (refund_found o)
    → is_refundable c ≡ false
    → Picks (c ∷ cs) (refund_found o)
further c cs none p e = (e, p)
further c cs (some d) p e = inr (e, p)

refund_found-Picks : (cs : List Charge) → Picks cs (refund_found (next_refundable cs))
unfolding next_refundable
refund_found-Picks [] = tt
refund_found-Picks (c ∷ cs) = elim (Bool-cases (is_refundable c)) [
  | inl e ↦ rw e (inl (refl, e))
  | inr e ↦ rw e (further c cs (next_refundable cs) (refund_found-Picks cs) e)
]

refund_of-Picks :
    (s : Settings) (charges : String → List Charge) (k : String)
    → billing_configured s ≡ true
    → Picks (charges k) (refund_of s charges (some k))
unfolding refund_of
refund_of-Picks s charges k on = rw on (refund_found-Picks (charges k))

-- With a key configured, and for a user with a billing account, a refund gives back the first
-- charge of Stripe's list that is refundable (paid, succeeded, not refunded, with something left),
-- and answers that there is none only when no charge of the list is.
pub refund_latest-Picks :
    (s : Settings) (charges : String → List Charge) (u : User) (k : String)
    → billing_configured s ≡ true
    → present u.stripe_customer_id ≡ some k
    → Picks (charges k) (refund_latest s charges u)
unfolding refund_latest
refund_latest-Picks s charges u k on has = rw has (refund_of-Picks s charges k on)
