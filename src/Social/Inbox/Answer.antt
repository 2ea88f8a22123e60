-- ===== src/Social/Inbox/Answer.antt =====
-- Accepting and declining a follow request (graph.py).
use loupe_backend.Prelude.{
  ℕ, ◌≡◌, refl, Bool, true, false, Option, none, some, List, [], ◌∷◌, arith, ◌==◌,
}
use loupe_backend.Social.Graph.{
  SocialFollowRequest, Db, not_found, ok, err, follows?, requests?, add_follow,
}
use loupe_backend.Social.Graph.Rows.{
  is_claimed, UniqueRequests, IsSound, add_follow-IsSound, fewer-IsSound,
}
use loupe_backend.Social.Inbox.{
  find_request, delete_request, follow_unless, accept_loaded, accept_request, decline_loaded,
  decline_request,
}

delete_request-fewer :
    (id a b : ℕ) (rs : List SocialFollowRequest)
    → requests? a b (delete_request id rs) ≡ true
    → requests? a b rs ≡ true
unfolding requests? delete_request
delete_request-fewer id a b [] h = cc
delete_request-fewer id a b (r ∷ rs) h = ground (arith, delete_request-fewer id a b rs)

delete_request-UniqueRequests :
    (id : ℕ) (rs : List SocialFollowRequest)
    → UniqueRequests rs
    → UniqueRequests (delete_request id rs)
unfolding delete_request
delete_request-UniqueRequests id [] u = tt
delete_request-UniqueRequests id (r ∷ rs) u = ground (
  arith,
  delete_request-UniqueRequests id rs u.1,
  delete_request-fewer id r.requester_id r.target_id rs,
)

-- The request that is found is one of the table, to this account.
find_request-mine :
    (me id : ℕ) (rs : List SocialFollowRequest) (r : SocialFollowRequest)
    → find_request me id rs ≡ some r
    → (requests? r.requester_id me rs ≡ true) × (r.request_id ≡ id) × (r.target_id ≡ me)
unfolding find_request requests?
find_request-mine me id [] r h = cc
find_request-mine me id (q ∷ rs) r h = ground (arith, find_request-mine me id rs r)

-- Once it is deleted, its requester has no other.
find_request-delete :
    (me id : ℕ) (rs : List SocialFollowRequest) (r : SocialFollowRequest)
    → UniqueRequests rs
    → find_request me id rs ≡ some r
    → requests? r.requester_id me (delete_request id rs) ≡ false
unfolding find_request requests? delete_request
find_request-delete me id [] r u h = refl
find_request-delete me id (q ∷ rs) r u h = ground (
  arith,
  find_request-delete me id rs r u.1,
  find_request-mine me id rs r,
  delete_request-fewer id r.requester_id me rs,
)

deleted-IsSound :
    (db : Db) (id : ℕ)
    → IsSound db
    → IsSound (record db { requests = delete_request id db.requests })
deleted-IsSound db id s =
    fewer-IsSound db db.follows _ s s.edges (delete_request-UniqueRequests id db.requests s.asks)
      (λ a b h. h) (λ a b h. delete_request-fewer id a b db.requests h)

follow_unless-IsSound :
    (db : Db) (a b : ℕ) (c : Bool)
    → follows? a b db.follows ≡ c
    → IsSound db
    → (a == b) ≡ false
    → requests? a b db.requests ≡ false
    → is_claimed db a ≡ true
    → is_claimed db b ≡ true
    → IsSound (follow_unless c db a b)
unfolding follow_unless
follow_unless-IsSound db a b true e s ne na ca cb = s
follow_unless-IsSound db a b false e s ne na ca cb = add_follow-IsSound db a b s ne e na ca cb

-- The two writes of `accept_request` commute: the edge is added beside the requests that are left.
follow_unless-requests :
    (db : Db) (a b : ℕ) (c : Bool) (rs : List SocialFollowRequest)
    → record (follow_unless c db a b) { requests = rs }
      ≡ follow_unless c (record db { requests = rs }) a b
unfolding follow_unless add_follow
follow_unless-requests db a b true rs = refl
follow_unless-requests db a b false rs = refl

requests-follow_unless :
    (db : Db) (a b : ℕ) (c : Bool) → (follow_unless c db a b).requests ≡ db.requests
unfolding follow_unless add_follow
requests-follow_unless db a b true = refl
requests-follow_unless db a b false = refl

accept_loaded-IsSound :
    (db : Db) (me id : ℕ) (o : Option SocialFollowRequest)
    → find_request me id db.requests ≡ o
    → IsSound db
    → IsSound (accept_loaded db me (elim o [ none ↦ err not_found | some r ↦ ok r ])).db
unfolding accept_loaded
accept_loaded-IsSound db me id none e s = s
accept_loaded-IsSound db me id (some r) e s =
    let (asked, same, mine) = find_request-mine me id db.requests r e in
    let c = follows? r.requester_id me db.follows in
    (rw (requests-follow_unless db r.requester_id me c) (
      rw (follow_unless-requests db r.requester_id me c (delete_request r.request_id db.requests)) (
        rw same (
          follow_unless-IsSound (record db { requests = delete_request id db.requests })
            r.requester_id me c refl (deleted-IsSound db id s)
            (ground (arith, s.no_self_request me))
            (find_request-delete me id db.requests r s.asks e)
            ((s.claimed_request r.requester_id me asked).0)
            ((s.claimed_request r.requester_id me asked).1)))))

pub accept_request-IsSound :
    (db : Db) (me id : ℕ) → IsSound db → IsSound (accept_request db me id).db
unfolding accept_request
accept_request-IsSound db me id s =
    accept_loaded-IsSound db me id (find_request me id db.requests) refl s

decline_loaded-IsSound :
    (db : Db) (o : Option SocialFollowRequest)
    → IsSound db
    → IsSound (decline_loaded db (elim o [ none ↦ err not_found | some r ↦ ok r ])).db
unfolding decline_loaded
decline_loaded-IsSound db none s = s
decline_loaded-IsSound db (some r) s = deleted-IsSound db r.request_id s

pub decline_request-IsSound :
    (db : Db) (me id : ℕ) → IsSound db → IsSound (decline_request db me id).db
unfolding decline_request
decline_request-IsSound db me id s = decline_loaded-IsSound db (find_request me id db.requests) s
