-- ===== src/Social/Graph/Follow.antt =====
-- Follow, unfollow and remove (graph.py): the graph stays sound, the answer is the truth, and a
-- private account is not followed without its owner.
use loupe_backend.Prelude.{
  if_elim, ℕ, String, ◌≡◌, refl, ◌∙◌, ◌⊎◌, true, false, ◌&&◌, not, Option, none, some, List, [],
  ◌∷◌, arith, ◌==◌, if◌then◌else◌, is_some,
}
use loupe_backend.Social.Graph.{
  User, SocialProfile, Db, Result, ok, err, Relationship, self, following, requested, nobody,
  find_profile, get_profile, follows?, requests?, relationship_between, resolve_username,
  find_handle, Done, follow_new, follow_resolved, follow, unfollow_resolved, unfollow,
  remove_resolved, remove_follower,
}
use loupe_backend.Social.Graph.Rows.{
  follows?-without, requests?-without, is_claimed, IsSound, add_follow-IsSound, add_request-IsSound,
  fewer-IsSound, UniqueEdges-without, UniqueRequests-without, without_follow-fewer,
  without_request-fewer,
}

-- What `resolve_username` finds is a profile of the table.
find_profile-claims :
    (id : ℕ) (ps : List SocialProfile) (p : SocialProfile)
    → find_profile id ps ≡ some p
    → is_some (find_profile p.user_id ps) ≡ true
unfolding find_profile
find_profile-claims id [] p h = cc
find_profile-claims id (q ∷ ps) p h = ground (arith, find_profile-claims id ps p)

find_handle-claims :
    (handle : String) (us : List User) (ps : List SocialProfile) (p : SocialProfile)
    → find_handle handle us ps ≡ some p
    → is_some (find_profile p.user_id ps) ≡ true
unfolding find_handle find_profile
find_handle-claims handle us [] p h = cc
find_handle-claims handle us (q ∷ ps) p h = ground (arith, find_handle-claims handle us ps p)

pub resolve_username-claims :
    (normal : String → String) (db : Db) (username : String) (viewer : Option ℕ) (p : SocialProfile)
    → resolve_username normal db username viewer ≡ ok p
    → is_claimed db p.user_id ≡ true
unfolding resolve_username
resolve_username-claims normal db username none p h =
    ground (arith, find_handle-claims (normal username) db.users db.profiles p)
resolve_username-claims normal db username (some v) p h = ground (
  arith,
  find_handle-claims (normal username) db.users db.profiles p,
  find_profile-claims v db.profiles p,
)

-- `relationship_between` is `nobody` for two different accounts with neither edge nor request.
nobody-rows :
    (db : Db) (a b : ℕ)
    → relationship_between db a b ≡ nobody
    → ((a == b) ≡ false) × (follows? a b db.follows ≡ false) × (requests? a b db.requests ≡ false)
unfolding relationship_between
nobody-rows db a b h = ground arith

follow_new-IsSound :
    (db : Db) (viewer : ℕ) (p : SocialProfile) (r : Relationship)
    → relationship_between db viewer p.user_id ≡ r
    → (p.user_id == viewer) ≡ false
    → is_claimed db viewer ≡ true
    → is_claimed db p.user_id ≡ true
    → IsSound db
    → IsSound (follow_new db viewer p r).db
unfolding follow_new
follow_new-IsSound db viewer p following e ne cv cp s = s
follow_new-IsSound db viewer p requested e ne cv cp s = s
follow_new-IsSound db viewer p self e ne cv cp s =
    absurd (unfold relationship_between in ground arith)
follow_new-IsSound db viewer p nobody e ne cv cp s =
    let (apart, no_edge, no_ask) = nobody-rows db viewer p.user_id e in
    if_elim (λ (d : Done Relationship). IsSound d.db) p.is_private _ _
      (λ _. add_request-IsSound db viewer p.user_id s apart no_edge no_ask cv cp)
      (λ _. add_follow-IsSound db viewer p.user_id s apart no_edge no_ask cv cp)

follow_resolved-IsSound :
    (db : Db) (viewer : ℕ) (r : Result SocialProfile)
    → ((p : SocialProfile) → r ≡ ok p → is_claimed db p.user_id ≡ true)
    → IsSound db
    → IsSound (follow_resolved db viewer r).db
unfolding follow_resolved get_profile
follow_resolved-IsSound db viewer (err e) c s = s
follow_resolved-IsSound db viewer (ok p) c s =
    if_elim (λ (d : Done Relationship). IsSound d.db) (p.user_id == viewer) _ _ (λ _. s)
      (λ ne.
        if_elim (λ (d : Done Relationship). IsSound d.db) (not (is_claimed db viewer)) _ _ (λ _. s)
          (λ cv.
            follow_new-IsSound db viewer p (relationship_between db viewer p.user_id) refl ne
              (ground arith) (c p refl) s))

module _ (normal : String → String) (db : Db) (viewer : ℕ) (username : String) where
  pub follow-IsSound : IsSound db → IsSound (follow normal db viewer username).db
  unfolding follow
  follow-IsSound s =
      follow_resolved-IsSound db viewer (resolve_username normal db username (some viewer))
        (λ p e. resolve_username-claims normal db username (some viewer) p e) s

  unfollow_rows :
      (r : Result SocialProfile) → IsSound db → IsSound (unfollow_resolved db viewer r).db
  unfolding unfollow_resolved
  unfollow_rows (err e) s = s
  unfollow_rows (ok p) s =
      fewer-IsSound db _ _ s (UniqueEdges-without viewer p.user_id db.follows s.edges)
        (UniqueRequests-without viewer p.user_id db.requests s.asks)
        (λ c d h. without_follow-fewer viewer p.user_id c d db.follows h)
        (λ c d h. without_request-fewer viewer p.user_id c d db.requests h)

  pub unfollow-IsSound : IsSound db → IsSound (unfollow normal db viewer username).db
  unfolding unfollow
  unfollow-IsSound s = unfollow_rows (resolve_username normal db username (some viewer)) s

  remove_rows : (r : Result SocialProfile) → IsSound db → IsSound (remove_resolved db viewer r).db
  unfolding remove_resolved
  remove_rows (err e) s = s
  remove_rows (ok p) s =
      if_elim (λ (d : Done Unit). IsSound d.db) (follows? p.user_id viewer db.follows) _ _
        (λ _.
          fewer-IsSound db _ db.requests s (UniqueEdges-without p.user_id viewer db.follows s.edges)
            s.asks (λ c d h. without_follow-fewer p.user_id viewer c d db.follows h) (λ c d h. h))
        (λ _. s)

  pub remove_follower-IsSound : IsSound db → IsSound (remove_follower normal db viewer username).db
  unfolding remove_follower
  remove_follower-IsSound s = remove_rows (resolve_username normal db username none) s

-- A follow leaves accounts and profiles alone, and with them what a handle stands for.
follow_resolved-accounts :
    (db : Db) (viewer : ℕ) (r : Result SocialProfile)
    → ((follow_resolved db viewer r).db.users ≡ db.users)
      × ((follow_resolved db viewer r).db.profiles ≡ db.profiles)
unfolding follow_resolved
follow_resolved-accounts db viewer (err e) = (refl, refl)
follow_resolved-accounts db viewer (ok p) = ground arith

resolve_username-accounts :
    (normal : String → String) (db d : Db) (username : String) (viewer : ℕ)
    → d.users ≡ db.users
    → d.profiles ≡ db.profiles
    → resolve_username normal d username (some viewer)
      ≡ resolve_username normal db username (some viewer)
unfolding resolve_username
resolve_username-accounts normal db d username viewer u q = rw (u, q) refl

settles :
    (db : Db) (viewer : ℕ) (p : SocialProfile) (r : Relationship)
    → (follow_resolved db viewer (ok p)).answer ≡ ok r
    → let d = (follow_resolved db viewer (ok p)).db in
      (relationship_between d viewer p.user_id ≡ r)
      × (follow_resolved d viewer (ok p) ≡ record { db = d; answer = ok r; notices = [] })
unfolding follow_resolved relationship_between follows? requests? get_profile
settles db viewer p r h = ground arith

answer_cases :
    (db : Db) (viewer : ℕ) (p : SocialProfile) (r : Relationship)
    → (follow_resolved db viewer (ok p)).answer ≡ ok r
    → (r ≡ following) ⊎ (r ≡ requested)
unfolding follow_resolved relationship_between
answer_cases db viewer p r h = ground arith

-- When `follow` answers, the tables say of the two what it answered, following or requested; and a
-- second `follow` answers the same, changes nothing and notifies nobody.
pub follow_settles :
    (normal : String → String) (db : Db) (viewer : ℕ) (username : String) (p : SocialProfile)
    (r : Relationship)
    → resolve_username normal db username (some viewer) ≡ ok p
    → (follow normal db viewer username).answer ≡ ok r
    → let d = (follow normal db viewer username).db in
      (relationship_between d viewer p.user_id ≡ r)
      × ((r ≡ following) ⊎ (r ≡ requested))
      × (follow normal d viewer username ≡ record { db = d; answer = ok r; notices = [] })
unfolding follow
follow_settles normal db viewer username p r e h =
    let found = resolve_username normal db username (some viewer) in
    let d = (follow_resolved db viewer found).db in
    let (us, ps) = follow_resolved-accounts db viewer found in
    let same : resolve_username normal d username (some viewer) ≡ ok p =
      resolve_username-accounts normal db d username viewer us ps ∙ e in
    let h' : (follow_resolved db viewer (ok p)).answer ≡ ok r = rw e at h in
    let (rel, twice) = settles db viewer p r h' in
    rw same (rw e (rel, answer_cases db viewer p r h', twice))

-- After `unfollow` there is neither edge nor request from the viewer to the profile, and everybody
-- else's edges and requests are as they were.
pub unfollow_clears :
    (normal : String → String) (db : Db) (viewer : ℕ) (username : String) (p : SocialProfile)
    (a b : ℕ)
    → resolve_username normal db username (some viewer) ≡ ok p
    → let d = (unfollow normal db viewer username).db in
      (follows? a b d.follows
        ≡ (if viewer == a && p.user_id == b then false else follows? a b db.follows))
      × (requests? a b d.requests
          ≡ (if viewer == a && p.user_id == b then false else requests? a b db.requests))
unfolding unfollow
unfollow_clears normal db viewer username p a b e = rw e (
    unfold unfollow_resolved in
    (
      follows?-without viewer p.user_id a b db.follows,
      requests?-without viewer p.user_id a b db.requests,
    ))
