-- ===== src/Billing/Subscription/Webhook.antt =====
-- Every sequence of webhook deliveries keeps the users' table sound (billing_service.py).
use loupe_backend.Prelude.{
  ℕ, ◌+◌, String, ◌≡◌, refl, sym, Bool, true, ◌&&◌, Option, none, some, List, [], ◌∷◌, ◌++◌, arith,
}
use loupe_backend.Billing.Subscription.{
  checkout_session_completed, subscription_created, subscription_updated, subscription_deleted,
  invoice_payment_failed, other_event, User, Subscription, Session, Event, Notice, Error, find_id,
  save, user_by_customer, Lookup, missing, several, found, apply_subscription,
}
use loupe_backend.Billing.Subscription.Handlers.{
  link, present, by_reference, handle_payment_failed, applied, completed, settle, settle_with,
  link_found, complete_found, handle_checkout_completed, handle_event, deliver,
}
use loupe_backend.Billing.Subscription.Rows.{save-save}
use loupe_backend.Billing.Subscription.Sync.{
  IsSound, activations, cancellations, pro_bit, since, Step, apply_to-Step, upgraded-Step,
  only_stripe, Change, unchanged-Change,
}
use loupe_backend.Billing.Subscription.Lookups.{
  Valid, user_by_customer-Valid, Step-Change, warn_found-Change, by_reference_row, relink-Change,
  subscription-Change,
}

activations-append :
    (i : ℕ) (ms ns : List Notice) → activations i (ms ++ ns) ≡ activations i ms + activations i ns
unfolding activations
activations-append i [] ns = omega arith
activations-append i (m ∷ ms) ns = ground (arith, activations-append i ms ns)

cancellations-append :
    (i : ℕ) (ms ns : List Notice)
    → cancellations i (ms ++ ns) ≡ cancellations i ms + cancellations i ns
unfolding cancellations
cancellations-append i [] ns = omega arith
cancellations-append i (m ∷ ms) ns = ground (arith, cancellations-append i ms ns)

unfoldable pub all_stripe : List Error → Bool
all_stripe [] = true
all_stripe (e ∷ es) = only_stripe (some e) && all_stripe es

-- A row that is left as it is.
pub Step_refl : (u : User) → Step u u []
unfolding activations cancellations
Step_refl u = record {
  same = refl;
  customer = refl;
  fair = λ f. f;
  mail = λ i. refl;
  kept = λ t h. h;
}

-- What a checkout settles is a step, where Stripe answers.
abbrev pub Settles : User → Option (User × List Notice) → Type 0
Settles u none = Unit
Settles u (some (v, ns)) = Step u v ns

applied-Settles : (u : User) (o : Option Subscription) (now : ℕ) → Settles u (applied u o now)
applied-Settles u none now = tt
applied-Settles u (some sub) now = apply_to-Step u sub now

completed-Change :
    (o : Option (User × List Notice)) (us : List User) (u : User)
    → IsSound us
    → find_id u.id us ≡ some u
    → Settles u o
    → Change us (completed o us)
unfolding activations cancellations
completed-Change none us u s row st = record {
  sound = s;
  fine = refl;
  mail = λ i. refl;
  kept = λ i t h. h;
}
completed-Change (some (v, ns)) us u s row st = Step-Change us u v ns s row st

linked-Change :
    (o : Option (User × List Notice)) (c : Option String) (us : List User) (u : User)
    → IsSound us
    → user_by_customer c us ≡ missing
    → find_id u.id us ≡ some u
    → Settles (link u c) o
    → Change us (completed o (save (link u c) us))
linked-Change none c us u s m row st =
    let ch = relink-Change c us u (link u c) [] s m row (Step_refl (link u c)) in
    record { sound = ch.sound; fine = refl; mail = ch.mail; kept = ch.kept }
linked-Change (some (w, ns)) c us u s m row st =
    rw (save-save w (link u c) us (sym st.same)) (relink-Change c us u w ns s m row st)

module _ (retrieve : String → ℕ → Option Subscription) where
  settle_with-Settles :
      (o : Option String) (u : User) (key : String) (now : ℕ)
      → Settles u (settle_with retrieve o u key now)
  settle_with-Settles none u key now = upgraded-Step u key now
  settle_with-Settles (some k) u key now = applied-Settles u (retrieve k now) now

  pub settle-Settles : (u : User) (x : Session) (now : ℕ) → Settles u (settle retrieve u x now)
  settle-Settles u x now = settle_with-Settles (present x.subscription) u x.id now

  link_found-Change :
      (o : Option User) (us : List User) (x : Session) (now : ℕ)
      → IsSound us
      → user_by_customer x.customer us ≡ missing
      → by_reference x.client_reference_id us ≡ o
      → Change us (link_found retrieve o us x now)
  unfolding activations cancellations
  link_found-Change none us x now s m r = unchanged-Change us [] (λ j. refl) s
  link_found-Change (some u) us x now s m r =
      let v = link u x.customer in
      linked-Change (settle retrieve v x now) x.customer us u s m
        (by_reference_row x.client_reference_id us u r) (settle-Settles v x now)

  complete_found-Change :
      (l : Lookup) (us : List User) (x : Session) (now : ℕ)
      → IsSound us
      → user_by_customer x.customer us ≡ l
      → Valid us l
      → Change us (complete_found retrieve l us x now)
  complete_found-Change missing us x now s e v =
      link_found-Change (by_reference x.client_reference_id us) us x now s e refl
  complete_found-Change several us x now s e v = cc
  complete_found-Change (found u) us x now s e v =
      completed-Change (settle retrieve u x now) us u s v (settle-Settles u x now)

  pub handle_event-Change :
      (us : List User) (e : Event) (now : ℕ)
      → IsSound us
      → Change us (handle_event retrieve true us e now)
  unfolding handle_event handle_checkout_completed apply_subscription handle_payment_failed
      activations cancellations
  handle_event-Change us (checkout_session_completed x) now s =
      complete_found-Change (user_by_customer x.customer us) us x now s refl
        (user_by_customer-Valid x.customer us s)
  handle_event-Change us (subscription_created x) now s = subscription-Change us x now s
  handle_event-Change us (subscription_updated x) now s = subscription-Change us x now s
  handle_event-Change us (subscription_deleted x) now s = subscription-Change us x now s
  handle_event-Change us (invoice_payment_failed x) now s =
      warn_found-Change (user_by_customer x.customer us) us x now s
        (user_by_customer-Valid x.customer us s)
  handle_event-Change us other_event now s = unchanged-Change us [] (λ j. refl) s

  -- The e-mails tell the truth: from a sound table and with a configured key, over any deliveries, failed ones included,
  -- the e-mails to a user that Pro begins less those that it ends are the change of the user's
  -- plan.
  pub deliver_mail :
      (us : List User) (es : List (ℕ × Event)) (i : ℕ)
      → IsSound us
      → let (us', ns, errors) = deliver retrieve true us es in
        activations i ns + pro_bit i us ≡ cancellations i ns + pro_bit i us'
  unfolding deliver activations cancellations
  deliver_mail us [] i s = refl
  deliver_mail us ((t, e) ∷ es) i s =
      let h = handle_event retrieve true us e t in
      let c = handle_event-Change us e t s in
      let rest = (deliver retrieve true h.users es).1 in
      omega (
        arith,
        c.mail i,
        deliver_mail h.users es i c.sound,
        activations-append i h.notices rest,
        cancellations-append i h.notices rest,
      )

  -- In a sound table the date since when a user has been Pro, once set, survives any deliveries.
  pub since-deliver :
      (us : List User) (es : List (ℕ × Event)) (i t : ℕ)
      → IsSound us
      → since i us ≡ some t
      → since i (deliver retrieve true us es).0 ≡ some t
  unfolding deliver
  since-deliver us [] i t s h = h
  since-deliver us ((n, e) ∷ es) i t s h =
      let c = handle_event-Change us e n s in
      since-deliver (handle_event retrieve true us e n).users es i t c.sound (c.kept i t h)
