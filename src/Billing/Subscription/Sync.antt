-- ===== src/Billing/Subscription/Sync.antt =====
-- What a change of one row of the users' table keeps (billing_service.py).
use loupe_backend.Prelude.{
  ℕ, ◌+◌, ◌≤◌, String, ◌≡◌, refl, ◌⊎◌, inl, inr, Bool, true, false, Option, none, some, List, [],
  ◌∷◌, arith, str_eq, ◌==◌, if◌then◌else◌, is_some, ==_iff, Bool-cases, All,
}
use loupe_backend.Billing.Subscription.{
  Error, not_configured, multiple_results, stripe_error, User, Subscription, Notice, Handled, done,
  is_pending, is_active, is_trialing, is_pro, reconciled, plan_notices, apply_to, has_customer,
  count, find_id, save, pro_activated, pro_canceled, payment_failed,
}
use loupe_backend.Billing.Subscription.Handlers.{upgraded}
use loupe_backend.Billing.Subscription.Rows.{
  bit, UniqueIds, find_id-save, UniqueIds-save, count-save, All-save,
}

-- A member has a start date, and only a member is in a trial.
abbrev pub Fair : User → Type 0
Fair u = (is_pro u ≡ true → is_some u.pro_since ≡ true) × (u.pro_trialing ≡ true → is_pro u ≡ true)

-- Ids are unique, no two users share a Stripe customer, and every user is fair.
pub record IsSound (us : List User) : Type 0 where
  pub ids : UniqueIds us
  pub customers : (c : String) → str_eq c "" ≡ false → count c us ≤ 1
  pub fair : All Fair us

-- The e-mails that tell this user that Pro begins, and those that it ends.
unfoldable pub activations : ℕ → List Notice → ℕ
activations i [] = 0
activations i (n ∷ ns) = elim n [
  | pro_activated j k ↦ bit (j == i) + activations i ns
  | pro_canceled j k ↦ activations i ns
  | payment_failed j v a g ↦ activations i ns
]

unfoldable pub cancellations : ℕ → List Notice → ℕ
cancellations i [] = 0
cancellations i (n ∷ ns) = elim n [
  | pro_activated j k ↦ cancellations i ns
  | pro_canceled j k ↦ bit (j == i) + cancellations i ns
  | payment_failed j v a g ↦ cancellations i ns
]

-- 1 if this user is Pro.
unfoldable pub pro_bit : ℕ → List User → ℕ
pro_bit i us = elim (find_id i us) [ none ↦ 0 | some u ↦ bit (is_pro u) ]

-- Since when this user has been Pro.
unfoldable pub since : ℕ → List User → Option ℕ
since i us = elim (find_id i us) [ none ↦ none | some u ↦ u.pro_since ]

-- A row that becomes another, with these e-mails.
pub record Step (u v : User) (ns : List Notice) : Type 0 where
  pub same : v.id ≡ u.id
  pub customer : v.stripe_customer_id ≡ u.stripe_customer_id
  pub fair : Fair u → Fair v
  pub mail :
      (i : ℕ)
      → activations i ns + (if u.id == i then bit (is_pro u) else 0)
        ≡ cancellations i ns + (if u.id == i then bit (is_pro v) else 0)
  pub kept : (t : ℕ) → u.pro_since ≡ some t → v.pro_since ≡ some t

plan_mail :
    (a b : Bool) (id i : ℕ) (k : String)
    → activations i (plan_notices a b id k) + (if id == i then bit a else 0)
      ≡ cancellations i (plan_notices a b id k) + (if id == i then bit b else 0)
unfolding plan_notices activations cancellations
plan_mail true true id i k = refl
plan_mail true false id i k = ground arith
plan_mail false true id i k = ground arith
plan_mail false false id i k = refl

pub reconciled-pro :
    (u : User) (s : Subscription) (now : ℕ) → is_pro (reconciled u s now) ≡ is_active s.status
unfolding reconciled is_pro
reconciled-pro u s now = elim (Bool-cases (is_active s.status)) [
  | inl e ↦ rw e refl
  | inr e ↦ rw e refl
]

reconciled-Fair : (u : User) (s : Subscription) (now : ℕ) → Fair (reconciled u s now)
unfolding reconciled is_pro is_trialing is_active
reconciled-Fair u s now = ground arith

reconciled-Step :
    (u : User) (s : Subscription) (now : ℕ)
    → Step u (reconciled u s now) (plan_notices (is_pro u) (is_active s.status) u.id s.id)
unfolding reconciled
reconciled-Step u s now = record {
  same = ground arith;
  customer = ground arith;
  fair = λ f. reconciled-Fair u s now;
  mail = λ i. rw (reconciled-pro u s now) (plan_mail (is_pro u) (is_active s.status) u.id i s.id);
  kept = λ t h. ground (arith, h);
}

pub apply_to-Step :
    (u : User) (s : Subscription) (now : ℕ) → let (v, ns) = apply_to u s now in Step u v ns
unfolding apply_to activations cancellations
apply_to-Step u s now = elim (Bool-cases (is_pending s.status)) [
  | inl e ↦
      rw e
        (record { same = refl; customer = refl; fair = λ f. f; mail = λ i. refl; kept = λ t h. h })
  | inr e ↦ rw e (reconciled-Step u s now)
]

pub upgraded-Step :
    (u : User) (k : String) (now : ℕ) → let (v, ns) = upgraded u k now in Step u v ns
unfolding upgraded is_pro
upgraded-Step u k now = record {
  same = refl;
  customer = refl;
  fair = λ f. ground arith;
  mail = λ i. plan_mail (is_pro u) true u.id i k;
  kept = λ t h. ground (arith, h);
}

-- No error, or that of a request to Stripe.
abbrev pub only_stripe : Option Error → Bool
only_stripe none = true
only_stripe (some stripe_error) = true
only_stripe (some not_configured) = false
only_stripe (some multiple_results) = false

-- A handler's effect.
pub record Change (us : List User) (h : Handled) : Type 0 where
  pub sound : IsSound h.users
  pub fine : only_stripe h.error ≡ true
  pub mail :
      (i : ℕ)
      → activations i h.notices + pro_bit i us ≡ cancellations i h.notices + pro_bit i h.users
  pub kept : (i t : ℕ) → since i us ≡ some t → since i h.users ≡ some t

pub unchanged-Change :
    (us : List User) (ns : List Notice)
    → ((i : ℕ) → activations i ns ≡ cancellations i ns)
    → IsSound us
    → Change us (done us ns)
unchanged-Change us ns quiet s = record {
  sound = s;
  fine = refl;
  mail = λ i. omega (arith, quiet i);
  kept = λ i t h. h;
}

-- A row may take a customer that it has, or that nobody has.
pub write-Change :
    (us : List User) (u v : User) (ns : List Notice)
    → IsSound us
    → find_id u.id us ≡ some u
    → v.id ≡ u.id
    → Fair v
    → ((c : String)
        → str_eq c "" ≡ false
        → has_customer c v ≡ true
        → (has_customer c u ≡ true) ⊎ (count c us ≡ 0))
    → ((i : ℕ)
        → activations i ns + (if u.id == i then bit (is_pro u) else 0)
          ≡ cancellations i ns + (if u.id == i then bit (is_pro v) else 0))
    → ((t : ℕ) → u.pro_since ≡ some t → v.pro_since ≡ some t)
    → Change us (done (save v us) ns)
unfolding pro_bit since
write-Change us u v ns s row same f cs m k =
    let row' : find_id v.id us ≡ some u = rw same row in
    record {
      sound = record {
        ids = UniqueIds-save u v us row' s.ids;
        customers = λ c e. ground (arith, count-save c u v us row', s.customers c e, cs c e);
        fair = All-save Fair v us s.fair f;
      };
      fine = refl;
      mail = λ i. ground (arith, find_id-save i u v us row', m i, same, row, ==_iff u.id i);
      kept = λ i t h. ground (arith, find_id-save i u v us row', k t, h, same, row, ==_iff u.id i);
    }
