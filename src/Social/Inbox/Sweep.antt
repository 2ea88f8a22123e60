-- ===== src/Social/Inbox/Sweep.antt =====
-- The sweep of a public account's pending requests (graph.py, `apply_pending_requests`): what it
-- adds, what it removes, and how many it reports.
use loupe_backend.Prelude.{
  if_elim, ℕ, suc, ◌+◌, ◌≡◌, refl, ap, inl, inr, Bool, true, false, ◌&&◌, ◌||◌, not, Option, none,
  some, List, [], ◌∷◌, arith, ◌==◌, ==_iff, Bool-cases, length,
}
use loupe_backend.Social.Graph.{
  SocialProfile, SocialFollowRequest, Db, get_profile, follows?, requests?, add_follow,
}
use loupe_backend.Social.Graph.Rows.{
  follows?-add, is_claimed, UniqueRequests, IsSound, add_follow-IsSound, fewer-IsSound,
}
use loupe_backend.Social.Inbox.{
  is_eligible, sweep, pending_for, not_for, apply_public, apply_profile, apply_pending_requests,
}

-- Whether one of the requests is by `a`.
pub asked_by : ℕ → List SocialFollowRequest → Bool
asked_by a [] = false
asked_by a (r ∷ rs) = r.requester_id == a || asked_by a rs

pub follows?-sweep :
    (db : Db) (me : ℕ) (rs : List SocialFollowRequest) (a b : ℕ)
    → follows? a b (sweep db me rs).0.follows ≡ (
        follows? a b db.follows
        || (b == me && (asked_by a rs && (is_eligible db a && not (a == me)))))
unfolding sweep asked_by
follows?-sweep db me [] a b = ground arith
follows?-sweep db me (r ∷ rs) a b =
    let db' = add_follow db r.requester_id me in
    ground (
      arith,
      follows?-sweep db me rs a b,
      follows?-sweep db' me rs a b,
      follows?-add db r.requester_id me a b,
      let e : is_eligible db' a ≡ is_eligible db a = unfold is_eligible add_follow in refl in e,
    )

length-sweep :
    (db : Db) (me : ℕ) (rs : List SocialFollowRequest)
    → length (sweep db me rs).0.follows ≡ length db.follows + (sweep db me rs).1
unfolding sweep
length-sweep db me [] = omega arith
length-sweep db me (r ∷ rs) =
    let db' = add_follow db r.requester_id me in
    ground (
      arith,
      length-sweep db me rs,
      length-sweep db' me rs,
      let e : length db'.follows ≡ suc (length db.follows) = unfold add_follow in refl in e,
    )

pub sweep_keeps :
    (db : Db) (me : ℕ) (rs : List SocialFollowRequest)
    → let d = (sweep db me rs).0 in
      (d.requests ≡ db.requests) × (d.users ≡ db.users) × (d.profiles ≡ db.profiles)
unfolding sweep add_follow
sweep_keeps db me [] = (refl, refl, refl)
sweep_keeps db me (r ∷ rs) =
    ground (arith, sweep_keeps db me rs, sweep_keeps (add_follow db r.requester_id me) me rs)

requests?-not_for :
    (me a b : ℕ) (rs : List SocialFollowRequest)
    → requests? a b (not_for me rs) ≡ (not (b == me) && requests? a b rs)
unfolding not_for requests?
requests?-not_for me a b [] = ground arith
requests?-not_for me a b (r ∷ rs) = ground (arith, requests?-not_for me a b rs)

asked_by-pending :
    (me a : ℕ) (rs : List SocialFollowRequest) → asked_by a (pending_for me rs) ≡ requests? a me rs
unfolding asked_by pending_for requests?
asked_by-pending me a [] = refl
asked_by-pending me a (r ∷ rs) = ground (arith, asked_by-pending me a rs)

no_pending :
    (me a : ℕ) (rs : List SocialFollowRequest) → pending_for me rs ≡ [] → requests? a me rs ≡ false
unfolding asked_by
no_pending me a rs h = rw (← asked_by-pending me a rs) (rw h refl)

apply_public_lem :
    (db : Db) (me a b : ℕ) (rs : List SocialFollowRequest)
    → pending_for me db.requests ≡ rs
    → let d = (apply_public db me rs).0 in
      (follows? a b d.follows ≡ (
        follows? a b db.follows
        || (b == me && (requests? a me db.requests && (is_eligible db a && not (a == me))))))
      × (requests? a b d.requests ≡ (not (b == me) && requests? a b db.requests))
      × (length d.follows ≡ length db.follows + (apply_public db me rs).1)
unfolding apply_public
apply_public_lem db me a b [] e =
    let none_for : requests? a me db.requests ≡ false = no_pending me a db.requests e in
    (ground arith, ground (arith, ==_iff b me), omega arith)
apply_public_lem db me a b (r ∷ rs) e = (
  ground (
    arith,
    follows?-sweep db me (r ∷ rs) a b,
    asked_by-pending me a db.requests,
    ap (asked_by a) e,
  ),
  rw ((sweep_keeps db me (r ∷ rs)).0) (requests?-not_for me a b db.requests),
  length-sweep db me (r ∷ rs),
)

-- On a public account the sweep leaves no request to it; exactly those follow it afterwards who
-- followed it before, or had asked and are live collectors with a handle other than itself; all
-- other edges and requests stay; and it reports how many edges it added.
pub apply_pending_requests_public :
    (db : Db) (me a b : ℕ) (p : SocialProfile)
    → get_profile db me ≡ some p
    → p.is_private ≡ false
    → let d = (apply_pending_requests db me).0 in
      (follows? a b d.follows ≡ (
        follows? a b db.follows
        || (b == me && (requests? a me db.requests && (is_eligible db a && not (a == me))))))
      × (requests? a b d.requests ≡ (not (b == me) && requests? a b db.requests))
      × (length d.follows ≡ length db.follows + (apply_pending_requests db me).1)
unfolding apply_pending_requests
apply_pending_requests_public db me a b p found open_ =
    rw (found) (rw open_ (apply_public_lem db me a b (pending_for me db.requests) refl))

-- A private account's pending requests, and everything else, stay as they are.
pub apply_pending_requests_private :
    (db : Db) (me : ℕ) (p : SocialProfile)
    → get_profile db me ≡ some p
    → p.is_private ≡ true
    → apply_pending_requests db me ≡ (db, 0)
unfolding apply_pending_requests
apply_pending_requests_private db me p found closed = rw found (rw closed refl)

not_for-UniqueRequests :
    (me : ℕ) (rs : List SocialFollowRequest) → UniqueRequests rs → UniqueRequests (not_for me rs)
unfolding not_for
not_for-UniqueRequests me [] u = tt
not_for-UniqueRequests me (r ∷ rs) u =
    ground
      (arith, not_for-UniqueRequests me rs u.1, requests?-not_for me r.requester_id r.target_id rs)

-- The edges that the sweep adds are sound beside the requests `qs` that will be left.
sweep-IsSound :
    (db : Db) (me : ℕ) (rs qs : List SocialFollowRequest)
    → is_claimed db me ≡ true
    → ((a : ℕ) → requests? a me qs ≡ false)
    → IsSound (record db { requests = qs })
    → IsSound (record (sweep db me rs).0 { requests = qs })
unfolding sweep
sweep-IsSound db me [] qs c none_left s = s
sweep-IsSound db me (r ∷ rs) qs c none_left s =
    elim (Bool-cases (
      is_eligible db r.requester_id
      && not (r.requester_id == me)
      && not (follows? r.requester_id me db.follows))) [
        | inl e ↦ rw e (
            sweep-IsSound (add_follow db r.requester_id me) me rs qs (unfold add_follow in c)
              none_left (added e))
        | inr e ↦ rw e (sweep-IsSound db me rs qs c none_left s)
      ]
  where
    added :
        (is_eligible db r.requester_id
            && not (r.requester_id == me)
            && not (follows? r.requester_id me db.follows))
          ≡ true
        → IsSound (record (add_follow db r.requester_id me) { requests = qs })
    added e =
        unfold add_follow is_eligible in
        add_follow-IsSound (record db { requests = qs }) r.requester_id me s (ground arith)
          (ground arith) (none_left r.requester_id) (ground arith) c

apply_public-IsSound :
    (db : Db) (me : ℕ) (rs : List SocialFollowRequest)
    → is_claimed db me ≡ true
    → IsSound db
    → IsSound (apply_public db me rs).0
unfolding apply_public
apply_public-IsSound db me [] c s = s
apply_public-IsSound db me (r ∷ rs) c s = rw ((sweep_keeps db me (r ∷ rs)).0) (
    sweep-IsSound db me (r ∷ rs) (not_for me db.requests) c
      (λ a. ground (arith, requests?-not_for me a me db.requests))
      (fewer-IsSound db db.follows (not_for me db.requests) s s.edges
        (not_for-UniqueRequests me db.requests s.asks) (λ a b h. h)
        (λ a b h. ground (arith, requests?-not_for me a b db.requests))))

apply_profile-IsSound :
    (db : Db) (me : ℕ) (o : Option SocialProfile)
    → get_profile db me ≡ o
    → IsSound db
    → IsSound (apply_profile db me o).0
unfolding get_profile
apply_profile-IsSound db me none e s = s
apply_profile-IsSound db me (some p) e s =
    if_elim (λ (d : Db × ℕ). IsSound d.0) p.is_private _ _ (λ _. s)
      (λ _. apply_public-IsSound db me (pending_for me db.requests) (ground (arith, e)) s)

pub apply_pending_requests-IsSound :
    (db : Db) (me : ℕ) → IsSound db → IsSound (apply_pending_requests db me).0
unfolding apply_pending_requests
apply_pending_requests-IsSound db me s = apply_profile-IsSound db me (get_profile db me) refl s
