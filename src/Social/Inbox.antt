-- ===== src/Social/Inbox.antt =====
-- app/social/services/graph.py: the follow requests that an account receives.
pub mod Sweep
pub mod Answer
use loupe_backend.Prelude.{
  ℕ, suc, Bool, true, false, ◌&&◌, not, Option, none, some, List, [], ◌∷◌, ◌==◌, if◌then◌else◌,
  is_some,
}
use loupe_backend.Social.Graph.{
  SocialProfile, SocialFollowRequest, Db, not_found, Result, ok, err, follow_request_accepted,
  get_profile, is_live, follows?, add_follow, Done, fails, answers,
}

unfoldable pub find_request : ℕ → ℕ → List SocialFollowRequest → Option SocialFollowRequest
find_request me id [] = none
find_request me id (r ∷ rs) =
    if r.request_id == id && r.target_id == me then some r else find_request me id rs

-- `db.delete(req)`
unfoldable pub delete_request : ℕ → List SocialFollowRequest → List SocialFollowRequest
delete_request id [] = []
delete_request id (r ∷ rs) =
    let rest = delete_request id rs in if r.request_id == id then rest else r ∷ rest

-- `_load_my_request`
abbrev pub load_my_request : Db → ℕ → ℕ → Result SocialFollowRequest
load_my_request db me id = elim (find_request me id db.requests) [
  | none ↦ err not_found
  | some r ↦ ok r
]

unfoldable pub follow_unless : Bool → Db → ℕ → ℕ → Db
unfolding add_follow
follow_unless true db a b = db
follow_unless false db a b = add_follow db a b

unfoldable pub accept_loaded : Db → ℕ → Result SocialFollowRequest → Done Unit
unfolding follow_unless delete_request
accept_loaded db me (err e) = fails db e
accept_loaded db me (ok req) =
    let db' = follow_unless (follows? req.requester_id me db.follows) db req.requester_id me in
    answers (record db' { requests = delete_request req.request_id db'.requests }) tt
      (follow_request_accepted me req.requester_id ∷ [])

unfoldable pub accept_request : Db → ℕ → ℕ → Done Unit
unfolding accept_loaded find_request
accept_request db me id = accept_loaded db me (load_my_request db me id)

unfoldable pub decline_loaded : Db → Result SocialFollowRequest → Done Unit
unfolding delete_request
decline_loaded db (err e) = fails db e
decline_loaded db (ok req) =
    answers (record db { requests = delete_request req.request_id db.requests }) tt []

unfoldable pub decline_request : Db → ℕ → ℕ → Done Unit
unfolding decline_loaded find_request
decline_request db me id = decline_loaded db (load_my_request db me id)

unfoldable pub pending_for : ℕ → List SocialFollowRequest → List SocialFollowRequest
pending_for me [] = []
pending_for me (r ∷ rs) =
    let rest = pending_for me rs in if r.target_id == me then r ∷ rest else rest

unfoldable pub not_for : ℕ → List SocialFollowRequest → List SocialFollowRequest
not_for me [] = []
not_for me (r ∷ rs) = let rest = not_for me rs in if r.target_id == me then rest else r ∷ rest

-- A claimed profile and a live account.
unfoldable pub is_eligible : Db → ℕ → Bool
unfolding get_profile is_live
is_eligible db id = is_some (get_profile db id) && is_live id db.users

-- The loop over the pending requests: who has an edge already, or has got one in this loop, is in
-- `db.follows`.
unfoldable pub sweep : Db → ℕ → List SocialFollowRequest → Db × ℕ
unfolding is_eligible add_follow
sweep db me [] = (db, 0)
sweep db me (r ∷ rs) =
    let fresh =
      is_eligible db r.requester_id
      && not (r.requester_id == me)
      && not (follows? r.requester_id me db.follows) in
    let (db', n) = sweep (if fresh then add_follow db r.requester_id me else db) me rs in
    (db', if fresh then suc n else n)

unfoldable pub apply_public : Db → ℕ → List SocialFollowRequest → Db × ℕ
unfolding sweep not_for
apply_public db me [] = (db, 0)
apply_public db me (r ∷ rs) =
    let (db', n) = sweep db me (r ∷ rs) in (record db' { requests = not_for me db'.requests }, n)

abbrev pub apply_profile : Db → ℕ → Option SocialProfile → Db × ℕ
apply_profile db me none = (db, 0)
apply_profile db me (some p) =
    if p.is_private then (db, 0) else apply_public db me (pending_for me db.requests)

-- With no other caller between its reads and its commit.
unfoldable pub apply_pending_requests : Db → ℕ → Db × ℕ
unfolding apply_public pending_for get_profile
apply_pending_requests db me = apply_profile db me (get_profile db me)

-- The rows of `_incoming_requests`, without their order.
unfoldable pub incoming : Db → List SocialFollowRequest → List SocialFollowRequest
unfolding is_eligible
incoming db [] = []
incoming db (r ∷ rs) =
    let rest = incoming db rs in if is_eligible db r.requester_id then r ∷ rest else rest

unfoldable pub incoming_requests : Db → ℕ → Db × List SocialFollowRequest
unfolding apply_pending_requests incoming
incoming_requests db me =
    let (db', n) = apply_pending_requests db me in (db', incoming db' (pending_for me db'.requests))
