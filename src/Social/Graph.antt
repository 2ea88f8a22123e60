-- ===== src/Social/Graph.antt =====
-- app/social/services/graph.py and the lookups of _common.py that it calls, over the rows that they
-- read and write. Ids are numbers. The requests that an account receives are in Inbox.
-- `normal` is Python's `.strip().lower()`.
pub mod Rows
pub mod Follow
use loupe_backend.Prelude.{
  ℕ, suc, String, Bool, true, false, ◌&&◌, ◌||◌, not, Option, none, some, List, [], ◌∷◌, str_eq,
  ◌==◌, if◌then◌else◌, is_some,
}

-- The columns of a User that the graph reads.
pub record User : Type 0 where
  pub id : ℕ
  pub deleted : Bool
  pub banned : Bool

pub record SocialProfile : Type 0 where
  pub user_id : ℕ
  pub username : String
  pub is_private : Bool

pub record SocialFollow : Type 0 where
  pub follower_id : ℕ
  pub followee_id : ℕ

pub record SocialFollowRequest : Type 0 where
  pub request_id : ℕ
  pub requester_id : ℕ
  pub target_id : ℕ

-- The tables, and the id of the next request.
pub record Db : Type 0 where
  pub users : List User
  pub profiles : List SocialProfile
  pub follows : List SocialFollow
  pub requests : List SocialFollowRequest
  pub next_id : ℕ

pub data Error : Type 0 where
  not_found self_follow no_username : Error

pub data Result (A : Type 0) : Type 0 where
  ok : A → Result A
  err : Error → Result A

pub data Relationship : Type 0 where
  self following requested nobody : Relationship

-- The notifications that are sent after the commit.
pub data Notice : Type 0 where
  follow_requested followed follow_request_accepted : ℕ → ℕ → Notice

unfoldable pub find_profile : ℕ → List SocialProfile → Option SocialProfile
find_profile id [] = none
find_profile id (p ∷ ps) = if p.user_id == id then some p else find_profile id ps

unfoldable pub get_profile : Db → ℕ → Option SocialProfile
unfolding find_profile
get_profile db id = find_profile id db.profiles

unfoldable pub is_live : ℕ → List User → Bool
is_live id [] = false
is_live id (u ∷ us) = u.id == id && not u.deleted && not u.banned || is_live id us

unfoldable pub follows? : ℕ → ℕ → List SocialFollow → Bool
follows? a b [] = false
follows? a b (f ∷ fs) = f.follower_id == a && f.followee_id == b || follows? a b fs

unfoldable pub requests? : ℕ → ℕ → List SocialFollowRequest → Bool
requests? a b [] = false
requests? a b (r ∷ rs) = r.requester_id == a && r.target_id == b || requests? a b rs

unfoldable pub relationship_between : Db → ℕ → ℕ → Relationship
relationship_between db viewer target =
    if viewer == target
    then self
    else if follows? viewer target db.follows
    then following
    else if requests? viewer target db.requests
    then requested
    else nobody

unfoldable pub can_view : SocialProfile → Relationship → Bool
can_view p self = true
can_view p following = true
can_view p requested = not p.is_private
can_view p nobody = not p.is_private

unfoldable pub find_handle : String → List User → List SocialProfile → Option SocialProfile
unfolding is_live
find_handle handle us [] = none
find_handle handle us (p ∷ ps) =
    if str_eq p.username handle && is_live p.user_id us then some p else find_handle handle us ps

abbrev pub or_not_found : Option SocialProfile → Result SocialProfile
or_not_found none = err not_found
or_not_found (some p) = ok p

abbrev is_self_alias : String → Option ℕ → Bool
is_self_alias handle none = false
is_self_alias handle (some viewer) = str_eq handle "me" || str_eq handle "@me"

abbrev of_viewer : Db → Option ℕ → Option SocialProfile
of_viewer db none = none
of_viewer db (some viewer) = get_profile db viewer

unfoldable pub resolve_username : (String → String) → Db → String → Option ℕ → Result SocialProfile
unfolding find_handle get_profile
resolve_username normal db username viewer =
    let handle = normal username in
    if is_self_alias handle viewer
    then or_not_found (of_viewer db viewer)
    else or_not_found (find_handle handle db.users db.profiles)

unfoldable pub add_follow : Db → ℕ → ℕ → Db
add_follow db a b = record db { follows = record { follower_id = a; followee_id = b } ∷ db.follows }

unfoldable pub add_request : Db → ℕ → ℕ → Db
add_request db a b = record db {
  requests = record { request_id = db.next_id; requester_id = a; target_id = b } ∷ db.requests;
  next_id = suc db.next_id;
}

-- What an operation leaves behind: the tables, its answer, and the notices sent.
pub record Done (A : Type 0) : Type 0 where
  pub db : Db
  pub answer : Result A
  pub notices : List Notice

abbrev pub fails : {A : Type 0} → Db → Error → Done A
fails db e = record { db = db; answer = err e; notices = [] }

abbrev pub answers : {A : Type 0} → Db → A → List Notice → Done A
answers db a ns = record { db = db; answer = ok a; notices = ns }

-- The three ways out of `follow` below its guards.
unfoldable pub follow_new : Db → ℕ → SocialProfile → Relationship → Done Relationship
unfolding add_follow add_request
follow_new db viewer p following = answers db following []
follow_new db viewer p requested = answers db requested []
follow_new db viewer p _ =
    if p.is_private
    then answers (add_request db viewer p.user_id) requested
        (follow_requested viewer p.user_id ∷ [])
    else answers (add_follow db viewer p.user_id) following (followed viewer p.user_id ∷ [])

unfoldable pub follow_resolved : Db → ℕ → Result SocialProfile → Done Relationship
unfolding follow_new
follow_resolved db viewer (err e) = fails db e
follow_resolved db viewer (ok p) =
    if p.user_id == viewer
    then fails db self_follow
    else if not (is_some (get_profile db viewer))
    then fails db no_username
    else follow_new db viewer p (relationship_between db viewer p.user_id)

unfoldable pub without_follow : ℕ → ℕ → List SocialFollow → List SocialFollow
without_follow a b [] = []
without_follow a b (f ∷ fs) =
    let rest = without_follow a b fs in
    if f.follower_id == a && f.followee_id == b then rest else f ∷ rest

unfoldable pub without_request : ℕ → ℕ → List SocialFollowRequest → List SocialFollowRequest
without_request a b [] = []
without_request a b (r ∷ rs) =
    let rest = without_request a b rs in
    if r.requester_id == a && r.target_id == b then rest else r ∷ rest

unfoldable pub unfollow_resolved : Db → ℕ → Result SocialProfile → Done Relationship
unfollow_resolved db viewer (err e) = fails db e
unfollow_resolved db viewer (ok p) =
    answers
      (record db {
        follows = without_follow viewer p.user_id db.follows;
        requests = without_request viewer p.user_id db.requests;
      })
      nobody []

unfoldable pub remove_resolved : Db → ℕ → Result SocialProfile → Done Unit
remove_resolved db me (err e) = fails db e
remove_resolved db me (ok p) =
    if follows? p.user_id me db.follows
    then answers (record db { follows = without_follow p.user_id me db.follows }) tt []
    else fails db not_found

module _ (normal : String → String) where
  unfoldable pub follow : Db → ℕ → String → Done Relationship
  unfolding follow_resolved
  follow db viewer username =
      follow_resolved db viewer (resolve_username normal db username (some viewer))

  -- Both the edge and a pending request go.
  unfoldable pub unfollow : Db → ℕ → String → Done Relationship
  unfolding unfollow_resolved
  unfollow db viewer username =
      unfollow_resolved db viewer (resolve_username normal db username (some viewer))

  unfoldable pub remove_follower : Db → ℕ → String → Done Unit
  unfolding remove_resolved
  remove_follower db me username = remove_resolved db me (resolve_username normal db username none)
