-- ===== src/Social/Session/Tests.antt =====
-- A small graph, and the theorems of the follow graph at it.
use loupe_backend.Prelude.{
  ℕ, ◌+◌, String, ◌≡◌, refl, ◌⊎◌, true, false, ◌&&◌, ◌||◌, not, some, List, [], ◌∷◌, arith, ◌==◌,
  length,
}
use loupe_backend.Social.Graph.{
  User, SocialProfile, Db, ok, following, requested, nobody, get_profile, find_profile,
  resolve_username, follows?, requests?, relationship_between, can_view, follow, unfollow,
}
use loupe_backend.Social.Graph.Rows.{IsSound}
use loupe_backend.Social.Graph.Follow.{follow_settles, unfollow_clears}
use loupe_backend.Social.Inbox.{accept_request, apply_pending_requests, is_eligible}
use loupe_backend.Social.Inbox.Sweep.{apply_pending_requests_public, apply_pending_requests_private}
use loupe_backend.Social.Session.{Call, follows, unfollows, accepts, opens_inbox, run, run-IsSound}
use loupe_backend.Social.Session.Privacy.{run_private}

abbrev member : ℕ → User
member id = record { id = id; deleted = false; banned = false }

abbrev ash : SocialProfile
ash = record { user_id = 1; username = "ash"; is_private = false }

abbrev misty : SocialProfile
misty = record { user_id = 2; username = "misty"; is_private = true }

-- 1 and 2 have profiles and 3 has none; 2 has asked to follow 1.
abbrev town : Db
town = record {
  users = member 1 ∷ member 2 ∷ member 3 ∷ [];
  profiles = ash ∷ misty ∷ [];
  follows = [];
  requests = record { request_id = 7; requester_id = 2; target_id = 1 } ∷ [];
  next_id = 8;
}

abbrev same_text : String → String
same_text s = s

town-IsSound : IsSound town
unfolding follows? requests? find_profile
town-IsSound = record {
  edges = tt;
  asks = (refl, tt);
  no_self_follow = λ a. refl;
  no_self_request = λ a. ground arith;
  exclusive = λ a b h. refl;
  claimed_follow = λ a b h. cc;
  claimed_request = λ a b h. ground arith;
}

abbrev calls : List Call
calls = follows 1 "misty" ∷ opens_inbox 1 ∷ accepts 2 8 ∷ follows 3 "ash" ∷ unfollows 2 "ash" ∷ []

run-IsSound_example : IsSound (run same_text town calls)
run-IsSound_example = run-IsSound same_text town calls town-IsSound

found_misty : resolve_username same_text town "misty" (some 1) ≡ ok misty
unfolding resolve_username
found_misty = refl

asked : (follow same_text town 1 "misty").answer ≡ ok requested
unfolding follow resolve_username relationship_between follows? requests?
asked = refl

follow_settles_run :
    let d = (follow same_text town 1 "misty").db in
    (relationship_between d 1 2 ≡ requested)
    × ((requested ≡ following) ⊎ (requested ≡ requested))
    × (follow same_text d 1 "misty" ≡ record { db = d; answer = ok requested; notices = [] })
follow_settles_run = follow_settles same_text town 1 "misty" misty requested found_misty asked

found_ash : resolve_username same_text town "ash" (some 2) ≡ ok ash
unfolding resolve_username
found_ash = refl

unfollow_clears_run :
    let d = (unfollow same_text town 2 "ash").db in
    (follows? 2 1 d.follows ≡ false) × (requests? 2 1 d.requests ≡ false)
unfollow_clears_run = unfollow_clears same_text town 2 "ash" ash 2 1 found_ash

apply_pending_requests_public_example :
    let d = (apply_pending_requests town 1).0 in
    (follows? 2 1 d.follows ≡ (
      follows? 2 1 town.follows
      || (1 == 1 && (requests? 2 1 town.requests && (is_eligible town 2 && not (2 == 1))))))
    × (requests? 2 1 d.requests ≡ (not (1 == 1) && requests? 2 1 town.requests))
    × (length d.follows ≡ length town.follows + (apply_pending_requests town 1).1)
unfolding get_profile
apply_pending_requests_public_example = apply_pending_requests_public town 1 2 1 ash refl refl

-- The pending request becomes an edge.
swept :
    (follows? 2 1 (apply_pending_requests town 1).0.follows ≡ true)
    × ((apply_pending_requests town 1).1 ≡ 1)
unfolding apply_pending_requests follows?
swept = (refl, refl)

apply_pending_requests_private_run : apply_pending_requests town 2 ≡ (town, 0)
unfolding get_profile
apply_pending_requests_private_run = apply_pending_requests_private town 2 misty refl refl

-- 1 follows misty already, and stays the only one who does.
abbrev friends : Db
friends = record town { follows = record { follower_id = 1; followee_id = 2 } ∷ [] }

abbrev attempts : List Call
attempts = follows 3 "misty" ∷ opens_inbox 2 ∷ accepts 1 7 ∷ []

still_follows : follows? 1 2 (run same_text friends attempts).follows ≡ true
unfolding run follow resolve_username relationship_between follows? requests? apply_pending_requests
    accept_request
still_follows = refl

run_private_example : follows? 1 2 friends.follows ≡ true
run_private_example =
    run_private same_text 2 friends attempts 1 (refl, (refl, tt)) (tt, (tt, (refl, tt)))
      still_follows

-- A private profile shows itself to its followers and to itself alone.
view :
    (can_view misty requested ≡ false)
    × (can_view misty following ≡ true)
    × (can_view ash nobody ≡ true)
unfolding can_view
view = (refl, refl, refl)
