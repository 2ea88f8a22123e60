-- ===== src/Billing/Subscription/Redelivery.antt =====
-- Stripe delivers an event more than once, and relies on the link that a checkout leaves
-- (billing_service.py).
use loupe_backend.Prelude.{
  ℕ, ◌≤◌, String, ◌≡◌, refl, sym, ap, subst, ◌∙◌, ◌⊎◌, inl, inr, Bool, true, false, ◌||◌, not,
  Option, none, some, List, [], ◌∷◌, arith, str_eq, eq_iff, ltb, if◌then◌else◌, is_some, ==_iff,
  Bool-cases,
}
use loupe_backend.Billing.Subscription.{
  User, Subscription, Session, Notice, Lookup, missing, several, found, is_pending, is_active,
  is_pro, or_now, period_end, reconciled, plan_notices, apply_to, apply_found, apply_subscription,
  has_customer, count, find_customer, find_id, save, user_by_customer,
}
use loupe_backend.Billing.Subscription.Handlers.{link, completed, settle, handle_checkout_completed}
use loupe_backend.Billing.Subscription.Rows.{
  bit, find_id-save, found_customer, find_customer-find_id, count-save, save-save, found_id,
}
use loupe_backend.Billing.Subscription.Sync.{pro_bit, IsSound, Step, apply_to-Step, reconciled-pro}
use loupe_backend.Billing.Subscription.Lookups.{user_by_customer_missing}
use loupe_backend.Billing.Subscription.Webhook.{Settles, settle-Settles}

-- A row that keeps its place among the customer's, or takes it when there is none.
find_customer-save :
    (c : String) (u v : User) (us : List User)
    → find_id v.id us ≡ some u
    → has_customer c v ≡ true
    → (find_customer c us ≡ some u) ⊎ (count c us ≡ 0)
    → find_customer c (save v us) ≡ some v
unfolding find_customer find_id save count
find_customer-save c u v [] row h w = cc
find_customer-save c u v (x ∷ us) row h w =
    ground (arith, found_id v.id us u, find_customer-save c u v us, w)

user_by_customer-found :
    (c : String) (us : List User) (u : User)
    → user_by_customer (some c) us ≡ found u
    → (find_customer c us ≡ some u) × (count c us ≤ 1) × (str_eq c "" ≡ false)
unfolding user_by_customer
user_by_customer-found c us u h = ground (arith, h)

found-user_by_customer :
    (c : String) (us : List User) (u : User)
    → find_customer c us ≡ some u
    → count c us ≤ 1
    → str_eq c "" ≡ false
    → user_by_customer (some c) us ≡ found u
unfolding user_by_customer
found-user_by_customer c us u f n e =
    rw (e, f) (let few : ltb 1 (count c us) ≡ false = ground (arith, n) in rw few refl)

started :
    (u : User) (t : ℕ)
    → is_some
        (if not (is_pro u) || not (is_some u.pro_since) then or_now u.pro_since t else u.pro_since)
      ≡ true
started u t = ground arith

reconciled_twice :
    (u : User) (s : Subscription) (p t now : ℕ)
    → period_end s ≡ some p
    → reconciled (reconciled u s t) s now ≡ reconciled u s t
unfolding reconciled is_pro
reconciled_twice u s p t now e = elim (Bool-cases (is_active s.status)) [
  | inl a ↦ rw (a, started u t) refl
  | inr a ↦ rw (a, e) refl
]

quiet : (b : Bool) (i : ℕ) (k : String) → plan_notices b b i k ≡ []
unfolding plan_notices
quiet true i k = refl
quiet false i k = refl

apply_to_twice :
    (u : User) (s : Subscription) (p t now : ℕ)
    → period_end s ≡ some p
    → apply_to (apply_to u s t).0 s now ≡ ((apply_to u s t).0, [])
unfolding apply_to
apply_to_twice u s p t now e = elim (Bool-cases (is_pending s.status)) [
  | inl w ↦ rw w refl
  | inr w ↦
      rw (w, reconciled_twice u s p t now e, reconciled-pro u s t)
        (rw (quiet (is_active s.status) (reconciled u s t).id s.id) refl)
]

-- A row saved under the same customer is found again.
found-save :
    (c : String) (us : List User) (u v : User)
    → IsSound us
    → user_by_customer (some c) us ≡ found u
    → v.id ≡ u.id
    → v.stripe_customer_id ≡ u.stripe_customer_id
    → user_by_customer (some c) (save v us) ≡ found v
unfolding has_customer
found-save c us u v s h same cust =
    let (f, n, e) = user_by_customer-found c us u h in
    let row : find_id v.id us ≡ some u = rw same (find_customer-find_id c us u s.ids f) in
    let has : has_customer c v ≡ true = rw cust (found_customer c us u f).0 in
    found-user_by_customer c (save v us) v (find_customer-save c u v us row has (inl f))
      (ground (arith, count-save c u v us row, (found_customer c us u f).0, has)) e

-- A handler's outcome that a second delivery repeats without an e-mail.
redelivered :
    (l : Lookup) (c : Option String) (us : List User) (s : Subscription) (p t now : ℕ)
    → IsSound us
    → user_by_customer c us ≡ l
    → period_end s ≡ some p
    → let h = apply_found l us s t in
      apply_found (user_by_customer c h.users) h.users s now ≡ record h { notices = [] }
unfolding user_by_customer save
redelivered missing c us s p t now sound e end_ = rw e refl
redelivered several c us s p t now sound e end_ = rw e refl
redelivered (found u) none us s p t now sound e end_ = cc
redelivered (found u) (some c) us s p t now sound e end_ =
    let (v, ns) = apply_to u s t in
    let st : Step u v ns = apply_to-Step u s t in
    rw
      (
        found-save c us u v sound e st.same st.customer,
        apply_to_twice u s p t now end_,
        save-save v v us refl,
      )
      refl

-- Stripe may deliver a subscription twice: to a sound table, and when the period end is known, the
-- second delivery, at whatever time, leaves every user as the first left them, and sends no
-- e-mail.
pub apply_subscription_twice :
    (us : List User) (s : Subscription) (p t now : ℕ)
    → IsSound us
    → period_end s ≡ some p
    → let h = apply_subscription us s t in
      apply_subscription h.users s now ≡ record h { notices = [] }
unfolding apply_subscription
apply_subscription_twice us s p t now sound e =
    redelivered (user_by_customer s.customer us) s.customer us s p t now sound refl e

pro_bit-save :
    (i : ℕ) (u v : User) (us : List User)
    → find_id v.id us ≡ some u
    → v.id ≡ i
    → pro_bit i (save v us) ≡ bit (is_pro v)
unfolding pro_bit
pro_bit-save i u v us row e =
    let there : find_id i (save v us) ≡ some v =
      ground (arith, find_id-save i u v us row, ==_iff v.id i, e) in
    ground (arith, there)

pro_bit-row :
    (us : List User) (u : User) → find_id u.id us ≡ some u → pro_bit u.id us ≡ bit (is_pro u)
unfolding pro_bit
pro_bit-row us u row = ground (arith, row)

reconciled-id : (u : User) (s : Subscription) (now : ℕ) → (reconciled u s now).id ≡ u.id
unfolding reconciled
reconciled-id u s now = ground arith

applied_plan :
    (us : List User) (u : User) (s : Subscription) (now : ℕ)
    → find_id u.id us ≡ some u
    → pro_bit u.id (save (apply_to u s now).0 us)
      ≡ (if is_pending s.status then pro_bit u.id us else bit (is_active s.status))
unfolding apply_to
applied_plan us u s now row = elim (Bool-cases (is_pending s.status)) [
  | inl w ↦ rw w (pro_bit-save u.id u u us row refl ∙ sym (pro_bit-row us u row))
  | inr w ↦ rw w (
      let same : (reconciled u s now).id ≡ u.id = reconciled-id u s now in
      pro_bit-save u.id u (reconciled u s now) us
        (subst (λ k. find_id k us ≡ some u) (sym same) row) same
      ∙ ap bit (reconciled-pro u s now))
]

-- The plan follows the last event: after a subscription event for the customer of a user in a sound
-- table, the user is Pro exactly if the event's status is an active one, and as before if it is a
-- pending one, whichever subscription the user's row records.
pub plan_follows_status :
    (us : List User) (s : Subscription) (c : String) (now : ℕ) (u : User)
    → IsSound us
    → s.customer ≡ some c
    → user_by_customer (some c) us ≡ found u
    → pro_bit u.id (apply_subscription us s now).users
      ≡ (if is_pending s.status then pro_bit u.id us else bit (is_active s.status))
unfolding apply_subscription
plan_follows_status us s c now u sound cust h =
    let h' : user_by_customer s.customer us ≡ found u = rw cust h in
    let row = find_customer-find_id c us u sound.ids (user_by_customer-found c us u h).0 in
    rw h' (applied_plan us u s now row)

-- The id of the user that a lookup finds.
abbrev pub id_of : Lookup → Option ℕ
id_of missing = none
id_of several = none
id_of (found u) = some u.id

has_own : (c : String) (w : User) → w.stripe_customer_id ≡ some c → has_customer c w ≡ true
unfolding has_customer
has_own c w h = rw h (ground (arith, eq_iff c c))

linked_row :
    (us : List User) (c : String) (i : ℕ) (u w : User)
    → IsSound us
    → str_eq c "" ≡ false
    → user_by_customer (some c) us ≡ missing
    → find_id i us ≡ some u
    → w.id ≡ u.id
    → w.stripe_customer_id ≡ some c
    → id_of (user_by_customer (some c) (save w us)) ≡ some i
unfolding has_customer
linked_row us c i u w s e m row same cust =
    let zero_ = user_by_customer_missing c us s m e in
    let id : u.id ≡ i = found_id i us u row in
    let row' : find_id w.id us ≡ some u =
      subst (λ k. find_id k us ≡ some u) (sym (same ∙ id)) row in
    let has : has_customer c w ≡ true = has_own c w cust in
    let there : user_by_customer (some c) (save w us) ≡ found w =
      found-user_by_customer c (save w us) w (find_customer-save c u w us row' has (inr zero_))
        (ground (arith, count-save c u w us row', has, zero_)) e in
    rw there (ap some (same ∙ id))

linked_completed :
    (o : Option (User × List Notice)) (us : List User) (c : String) (i : ℕ) (u : User)
    → IsSound us
    → str_eq c "" ≡ false
    → user_by_customer (some c) us ≡ missing
    → find_id i us ≡ some u
    → Settles (link u (some c)) o
    → id_of (user_by_customer (some c) (completed o (save (link u (some c)) us)).users) ≡ some i
unfolding link
linked_completed none us c i u s e m row st =
    linked_row us c i u (link u (some c)) s e m row refl refl
linked_completed (some (w, ns)) us c i u s e m row st =
    rw (save-save w (link u (some c)) us (sym st.same))
      (linked_row us c i u w s e m row st.same st.customer)

module _ (retrieve : String → ℕ → Option Subscription) where
  -- The link that a checkout leaves is the one later webhooks follow: in a sound table, a
  -- completed checkout of a customer that no user has, stamped with the id of a user of the table,
  -- makes the customer's lookup find that user, whatever state the subscription is in.
  pub handle_checkout_completed_links :
      (us : List User) (x : Session) (c : String) (i now : ℕ) (u : User)
      → IsSound us
      → str_eq c "" ≡ false
      → x.customer ≡ some c
      → user_by_customer (some c) us ≡ missing
      → x.client_reference_id ≡ some i
      → find_id i us ≡ some u
      → id_of (user_by_customer (some c) (handle_checkout_completed retrieve us x now).users)
        ≡ some i
  unfolding handle_checkout_completed link has_customer
  handle_checkout_completed_links us x c i now u s e cust m ref row =
      let m' : user_by_customer x.customer us ≡ missing = rw cust m in
      rw (m', ref, row, cust)
        (linked_completed (settle retrieve (link u (some c)) x now) us c i u s e m row
          (settle-Settles retrieve (link u (some c)) x now))
