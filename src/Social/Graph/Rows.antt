-- ===== src/Social/Graph/Rows.antt =====
-- Laws of the rows of follows and requests, and what a sound graph is (the constraints of
-- app/social/models.py, and what the functions of graph.py assume beyond them).
use loupe_backend.Prelude.{
  ℕ, ◌≡◌, refl, Bool, true, false, ◌&&◌, ◌||◌, List, [], ◌∷◌, arith, ◌==◌, if◌then◌else◌, is_some,
}
use loupe_backend.Social.Graph.{
  SocialFollow, SocialFollowRequest, Db, find_profile, follows?, requests?, add_follow, add_request,
  without_follow, without_request,
}

pub follows?-without :
    (a b c d : ℕ) (fs : List SocialFollow)
    → follows? c d (without_follow a b fs) ≡ (if a == c && b == d then false else follows? c d fs)
unfolding follows? without_follow
follows?-without a b c d [] = ground arith
follows?-without a b c d (f ∷ fs) = ground (arith, follows?-without a b c d fs)

pub requests?-without :
    (a b c d : ℕ) (rs : List SocialFollowRequest)
    → requests? c d (without_request a b rs)
      ≡ (if a == c && b == d then false else requests? c d rs)
unfolding requests? without_request
requests?-without a b c d [] = ground arith
requests?-without a b c d (r ∷ rs) = ground (arith, requests?-without a b c d rs)

pub follows?-add :
    (db : Db) (a b c d : ℕ)
    → follows? c d (add_follow db a b).follows ≡ (a == c && b == d || follows? c d db.follows)
unfolding follows? add_follow
follows?-add db a b c d = refl

pub requests?-add :
    (db : Db) (a b c d : ℕ)
    → requests? c d (add_request db a b).requests ≡ (a == c && b == d || requests? c d db.requests)
unfolding requests? add_request
requests?-add db a b c d = refl

-- No edge stands twice (the composite primary key).
abbrev pub UniqueEdges : List SocialFollow → Type 0
UniqueEdges [] = Unit {0}
UniqueEdges (f ∷ fs) = (follows? f.follower_id f.followee_id fs ≡ false) × UniqueEdges fs

-- Nor does a request (`uq_social_follow_request`).
abbrev pub UniqueRequests : List SocialFollowRequest → Type 0
UniqueRequests [] = Unit {0}
UniqueRequests (r ∷ rs) = (requests? r.requester_id r.target_id rs ≡ false) × UniqueRequests rs

pub UniqueEdges-without :
    (a b : ℕ) (fs : List SocialFollow) → UniqueEdges fs → UniqueEdges (without_follow a b fs)
unfolding without_follow
UniqueEdges-without a b [] u = tt
UniqueEdges-without a b (f ∷ fs) u =
    ground
      (arith, UniqueEdges-without a b fs u.1, follows?-without a b f.follower_id f.followee_id fs)

pub UniqueRequests-without :
    (a b : ℕ) (rs : List SocialFollowRequest)
    → UniqueRequests rs
    → UniqueRequests (without_request a b rs)
unfolding without_request
UniqueRequests-without a b [] u = tt
UniqueRequests-without a b (r ∷ rs) u =
    ground (
      arith,
      UniqueRequests-without a b rs u.1,
      requests?-without a b r.requester_id r.target_id rs,
    )

abbrev pub is_claimed : Db → ℕ → Bool
is_claimed db a = is_some (find_profile a db.profiles)

-- Nobody follows or asks to follow themselves; no edge and no request stands twice; nobody asks for
-- what they have; and both ends of an edge or request have claimed a handle.
pub record IsSound (db : Db) : Type 0 where
  pub edges : UniqueEdges db.follows
  pub asks : UniqueRequests db.requests
  pub no_self_follow : (a : ℕ) → follows? a a db.follows ≡ false
  pub no_self_request : (a : ℕ) → requests? a a db.requests ≡ false
  pub exclusive : (a b : ℕ) → requests? a b db.requests ≡ true → follows? a b db.follows ≡ false
  pub claimed_follow :
      (a b : ℕ)
      → follows? a b db.follows ≡ true
      → (is_claimed db a ≡ true) × (is_claimed db b ≡ true)
  pub claimed_request :
      (a b : ℕ)
      → requests? a b db.requests ≡ true
      → (is_claimed db a ≡ true) × (is_claimed db b ≡ true)

-- Adding an edge that is not there, between two claimed accounts with no request between them.
pub add_follow-IsSound :
    (db : Db) (a b : ℕ)
    → IsSound db
    → (a == b) ≡ false
    → follows? a b db.follows ≡ false
    → requests? a b db.requests ≡ false
    → is_claimed db a ≡ true
    → is_claimed db b ≡ true
    → IsSound (add_follow db a b)
unfolding add_follow follows?
add_follow-IsSound db a b s ne new unasked ca cb = record {
  edges = (new, s.edges);
  asks = s.asks;
  no_self_follow = λ c. ground (arith, s.no_self_follow c);
  no_self_request = s.no_self_request;
  exclusive = λ c d r. ground (arith, s.exclusive c d r);
  claimed_follow = λ c d f. ground (arith, s.claimed_follow c d);
  claimed_request = s.claimed_request;
}

pub add_request-IsSound :
    (db : Db) (a b : ℕ)
    → IsSound db
    → (a == b) ≡ false
    → follows? a b db.follows ≡ false
    → requests? a b db.requests ≡ false
    → is_claimed db a ≡ true
    → is_claimed db b ≡ true
    → IsSound (add_request db a b)
unfolding add_request requests?
add_request-IsSound db a b s ne unfollowed new ca cb = record {
  edges = s.edges;
  asks = (new, s.asks);
  no_self_follow = s.no_self_follow;
  no_self_request = λ c. ground (arith, s.no_self_request c);
  exclusive = λ c d r. ground (arith, s.exclusive c d);
  claimed_follow = s.claimed_follow;
  claimed_request = λ c d r. ground (arith, s.claimed_request c d);
}

-- A graph stays sound when rows go.
pub fewer-IsSound :
    (db : Db) (fs : List SocialFollow) (rs : List SocialFollowRequest)
    → IsSound db
    → UniqueEdges fs
    → UniqueRequests rs
    → ((a b : ℕ) → follows? a b fs ≡ true → follows? a b db.follows ≡ true)
    → ((a b : ℕ) → requests? a b rs ≡ true → requests? a b db.requests ≡ true)
    → IsSound (record db { follows = fs; requests = rs })
fewer-IsSound db fs rs s uf ur hf hr = record {
  edges = uf;
  asks = ur;
  no_self_follow = λ c. ground (arith, s.no_self_follow c, hf c c);
  no_self_request = λ c. ground (arith, s.no_self_request c, hr c c);
  exclusive = λ c d r. ground (arith, s.exclusive c d (hr c d r), hf c d);
  claimed_follow = λ c d f. s.claimed_follow c d (hf c d f);
  claimed_request = λ c d r. s.claimed_request c d (hr c d r);
}

pub without_follow-fewer :
    (a b c d : ℕ) (fs : List SocialFollow)
    → follows? c d (without_follow a b fs) ≡ true
    → follows? c d fs ≡ true
without_follow-fewer a b c d fs h = ground (arith, follows?-without a b c d fs)

pub without_request-fewer :
    (a b c d : ℕ) (rs : List SocialFollowRequest)
    → requests? c d (without_request a b rs) ≡ true
    → requests? c d rs ≡ true
without_request-fewer a b c d rs h = ground (arith, requests?-without a b c d rs)
