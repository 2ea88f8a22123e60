-- ===== src/Billing/Subscription/Lookups.antt =====
-- What the lookups of the webhook find, and how an event changes the row that it finds
-- (billing_service.py).
use loupe_backend.Prelude.{
  ℕ, ◌≤◌, String, ◌≡◌, refl, sym, subst, ◌⊎◌, inl, inr, true, false, Option, none, some, List, [],
  arith, str_eq, eq_iff, ltb, Bool-cases,
}
use loupe_backend.Billing.Subscription.{
  User, Subscription, Invoice, Notice, done, is_pro, apply_to, has_customer, count, find_customer,
  find_id, save, user_by_customer, Lookup, missing, several, found, one_or_none, apply_found,
  apply_subscription,
}
use loupe_backend.Billing.Subscription.Handlers.{link, warn_found, by_reference}
use loupe_backend.Billing.Subscription.Rows.{
  missing_customer, UniqueIds, found_id, find_customer-find_id, find_id-All,
}
use loupe_backend.Billing.Subscription.Sync.{
  Fair, IsSound, activations, cancellations, Step, apply_to-Step, Change, unchanged-Change,
  write-Change,
}

-- A lookup that found its row, and never two.
abbrev pub Valid : List User → Lookup → Type 0
Valid us missing = Unit
Valid us several = true ≡ false
Valid us (found u) = find_id u.id us ≡ some u

one_or_none_lem :
    (c : String) (us : List User) (o : Option User)
    → find_customer c us ≡ o
    → count c us ≤ 1
    → UniqueIds us
    → Valid us (one_or_none (count c us) o)
one_or_none_lem c us none h n q = tt
one_or_none_lem c us (some u) h n q =
    rw (let few : ltb 1 (count c us) ≡ false = ground (arith, n) in few)
      (find_customer-find_id c us u q h)

pub user_by_customer-Valid :
    (c : Option String) (us : List User) → IsSound us → Valid us (user_by_customer c us)
unfolding user_by_customer
user_by_customer-Valid none us s = tt
user_by_customer-Valid (some c) us s = elim (Bool-cases (str_eq c "")) [
  | inl e ↦ rw e tt
  | inr e ↦ rw e (one_or_none_lem c us (find_customer c us) refl (s.customers c e) s.ids)
]

pub user_by_customer_missing :
    (c : String) (us : List User)
    → IsSound us
    → user_by_customer (some c) us ≡ missing
    → str_eq c "" ≡ false
    → count c us ≡ 0
unfolding user_by_customer
user_by_customer_missing c us s h e = ground (arith, missing_customer c us, s.customers c e)

has_customer_same :
    (u v : User)
    → v.stripe_customer_id ≡ u.stripe_customer_id
    → (us : List User) (c : String) → str_eq c "" ≡ false
    → has_customer c v ≡ true
    → (has_customer c u ≡ true) ⊎ (count c us ≡ 0)
unfolding has_customer
has_customer_same u v e us c n h = inl (rw (sym e) h)

pub Step-Change :
    (us : List User) (u v : User) (ns : List Notice)
    → IsSound us
    → find_id u.id us ≡ some u
    → Step u v ns
    → Change us (done (save v us) ns)
Step-Change us u v ns s row st =
    write-Change us u v ns s row st.same (st.fair (find_id-All Fair u.id us u s.fair row))
      (has_customer_same u v st.customer us) st.mail st.kept

apply_found-Change :
    (l : Lookup) (us : List User) (sub : Subscription) (now : ℕ)
    → IsSound us
    → Valid us l
    → Change us (apply_found l us sub now)
unfolding activations cancellations
apply_found-Change missing us sub now s v = unchanged-Change us [] (λ i. refl) s
apply_found-Change several us sub now s v = cc
apply_found-Change (found u) us sub now s v =
    let (w, ns) = apply_to u sub now in Step-Change us u w ns s v (apply_to-Step u sub now)

pub warn_found-Change :
    (l : Lookup) (us : List User) (i : Invoice) (now : ℕ)
    → IsSound us
    → Valid us l
    → Change us (warn_found l us i now)
unfolding activations cancellations
warn_found-Change missing us i now s v = unchanged-Change us [] (λ j. refl) s
warn_found-Change several us i now s v = cc
warn_found-Change (found u) us i now s v = unchanged-Change us _ (λ j. refl) s

taken :
    (c : Option String) (d : String) (us : List User) (v : User)
    → IsSound us
    → user_by_customer c us ≡ missing
    → v.stripe_customer_id ≡ c
    → str_eq d "" ≡ false
    → has_customer d v ≡ true
    → count d us ≡ 0
unfolding has_customer
taken none d us v s m e n h = cc
taken (some k) d us v s m e n h =
    let same : k ≡ d = ground (arith, e, h, eq_iff k d) in
    subst (λ x. count x us ≡ 0) same (user_by_customer_missing k us s m (ground (arith, same, n)))

pub by_reference_row :
    (r : Option ℕ) (us : List User) (u : User)
    → by_reference r us ≡ some u
    → find_id u.id us ≡ some u
by_reference_row none us u h = cc
by_reference_row (some i) us u h = subst (λ k. find_id k us ≡ some u) (sym (found_id i us u h)) h

pub relink-Change :
    (c : Option String) (us : List User) (u v : User) (ns : List Notice)
    → IsSound us
    → user_by_customer c us ≡ missing
    → find_id u.id us ≡ some u
    → Step (link u c) v ns
    → Change us (done (save v us) ns)
unfolding link has_customer is_pro
relink-Change c us u v ns s none_ row st =
    write-Change us u v ns s row st.same (st.fair (find_id-All Fair u.id us u s.fair row))
      (λ d n h. inr (taken c d us v s none_ st.customer n h)) st.mail st.kept

pub subscription-Change :
    (us : List User) (x : Subscription) (now : ℕ)
    → IsSound us
    → Change us (apply_subscription us x now)
unfolding apply_subscription
subscription-Change us x now s =
    apply_found-Change (user_by_customer x.customer us) us x now s
      (user_by_customer-Valid x.customer us s)
