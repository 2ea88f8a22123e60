-- ===== src/Social/Session/Privacy.antt =====
-- A private account gets no follower without its consent (graph.py).
use loupe_backend.Prelude.{
  if_elim, ℕ, String, ◌≡◌, refl, subst, inl, inr, Bool, true, false, ◌&&◌, ◌||◌, not, Option, none,
  some, List, [], ◌∷◌, arith, str_eq, ◌==◌, is_some, ==_iff, Bool-cases, All,
}
use loupe_backend.Social.Graph.{
  User, SocialProfile, SocialFollowRequest, Db, not_found, Result, ok, err, Relationship, self,
  following, requested, nobody, find_profile, or_not_found, is_live, find_handle, get_profile,
  resolve_username, follows?, Done, follow_new, follow_resolved, follow, unfollow_resolved,
  unfollow, remove_resolved, remove_follower,
}
use loupe_backend.Social.Graph.Rows.{without_follow-fewer}
use loupe_backend.Social.Inbox.{
  find_request, accept_loaded, accept_request, follow_unless, decline_loaded, decline_request,
  apply_pending_requests, apply_profile, apply_public, pending_for,
}
use loupe_backend.Social.Inbox.Sweep.{follows?-sweep, sweep_keeps}
use loupe_backend.Social.Session.{
  Call, follows, unfollows, removes, accepts, declines, opens_inbox, step, run,
}

-- A predicate of all profiles holds of one that is found.
find_profile-All :
    (P : SocialProfile → Type 0) (id : ℕ) (ps : List SocialProfile) (p : SocialProfile)
    → All P ps
    → find_profile id ps ≡ some p
    → P p
unfolding find_profile
find_profile-All P id [] p a h = cc
find_profile-All P id (q ∷ ps) p a h = elim (Bool-cases (q.user_id == id)) [
  | inl e ↦ (let same : q ≡ p = ground arith in subst P same a.0)
  | inr e ↦ find_profile-All P id ps p a.1 (rw e at h)
]

find_profile-id :
    (id : ℕ) (ps : List SocialProfile) (p : SocialProfile)
    → find_profile id ps ≡ some p
    → (p.user_id == id) ≡ true
unfolding find_profile
find_profile-id id [] p h = cc
find_profile-id id (q ∷ ps) p h = ground (arith, find_profile-id id ps p)

find_handle-All :
    (P : SocialProfile → Type 0) (handle : String) (us : List User) (ps : List SocialProfile)
    (p : SocialProfile)
    → All P ps
    → find_handle handle us ps ≡ some p
    → P p
unfolding find_handle
find_handle-All P handle us [] p a h = cc
find_handle-All P handle us (q ∷ ps) p a h =
    elim (Bool-cases (str_eq q.username handle && is_live q.user_id us)) [
      | inl e ↦ (let same : q ≡ p = ground arith in subst P same a.0)
      | inr e ↦ find_handle-All P handle us ps p a.1 (rw e at h)
    ]

or_not_found-some :
    (o : Option SocialProfile) (p : SocialProfile) → or_not_found o ≡ ok p → o ≡ some p
or_not_found-some none p h = cc
or_not_found-some (some q) p h = cc

resolve_username-All :
    (P : SocialProfile → Type 0) (normal : String → String) (db : Db) (username : String)
    (viewer : Option ℕ) (p : SocialProfile)
    → All P db.profiles
    → resolve_username normal db username viewer ≡ ok p
    → P p
unfolding resolve_username
resolve_username-All P normal db username none p a h =
    find_handle-All P (normal username) db.users db.profiles p a (or_not_found-some _ p h)
resolve_username-All P normal db username (some v) p a h =
    elim (Bool-cases (str_eq (normal username) "me" || str_eq (normal username) "@me")) [
      | inl e ↦ find_profile-All P v db.profiles p a (or_not_found-some _ p (rw e at h))
      | inr e ↦
          find_handle-All P (normal username) db.users db.profiles p a
            (or_not_found-some _ p (rw e at h))
    ]

-- Every profile row of the account is private. (There is one: the account is its key.)
abbrev pub IsSecret : ℕ → SocialProfile → Type 0
IsSecret owner q = (not (q.user_id == owner) || q.is_private) ≡ true

-- The profiles stay, and whoever follows `owner` then follows it now.
record Guarded (owner : ℕ) (db d : Db) : Type 0 where
  profiles : d.profiles ≡ db.profiles
  no_new : (a : ℕ) → follows? a owner d.follows ≡ true → follows? a owner db.follows ≡ true

Guarded-refl : (owner : ℕ) (db : Db) → Guarded owner db db
Guarded-refl owner db = record { profiles = refl; no_new = λ a h. h }

follow_new-Guarded :
    (owner : ℕ) (db : Db) (viewer : ℕ) (p : SocialProfile) (r : Relationship)
    → IsSecret owner p
    → Guarded owner db (follow_new db viewer p r).db
unfolding follow_new follows?
follow_new-Guarded owner db viewer p following s = Guarded-refl owner db
follow_new-Guarded owner db viewer p requested s = Guarded-refl owner db
follow_new-Guarded owner db viewer p self s = record {
  profiles = ground arith;
  no_new = λ a h. ground arith;
}
follow_new-Guarded owner db viewer p nobody s = record {
  profiles = ground arith;
  no_new = λ a h. ground arith;
}

follow_resolved-Guarded :
    (owner : ℕ) (db : Db) (viewer : ℕ) (r : Result SocialProfile)
    → ((p : SocialProfile) → r ≡ ok p → IsSecret owner p)
    → Guarded owner db (follow_resolved db viewer r).db
unfolding follow_resolved
follow_resolved-Guarded owner db viewer (err e) s = Guarded-refl owner db
follow_resolved-Guarded owner db viewer (ok p) s =
    if_elim (λ (d : Done Relationship). Guarded owner db d.db) (p.user_id == viewer) _ _
      (λ _. Guarded-refl owner db)
      (λ _.
        if_elim (λ (d : Done Relationship). Guarded owner db d.db)
          (not (is_some (get_profile db viewer))) _ _ (λ _. Guarded-refl owner db)
          (λ _. follow_new-Guarded owner db viewer p _ (s p refl)))

unfollow_resolved-Guarded :
    (owner : ℕ) (db : Db) (viewer : ℕ) (r : Result SocialProfile)
    → Guarded owner db (unfollow_resolved db viewer r).db
unfolding unfollow_resolved
unfollow_resolved-Guarded owner db viewer (err e) = Guarded-refl owner db
unfollow_resolved-Guarded owner db viewer (ok p) = record {
  profiles = refl;
  no_new = λ a h. without_follow-fewer viewer p.user_id a owner db.follows h;
}

remove_resolved-Guarded :
    (owner : ℕ) (db : Db) (me : ℕ) (r : Result SocialProfile)
    → Guarded owner db (remove_resolved db me r).db
unfolding remove_resolved
remove_resolved-Guarded owner db me (err e) = Guarded-refl owner db
remove_resolved-Guarded owner db me (ok p) =
    if_elim (λ (d : Done Unit). Guarded owner db d.db) (follows? p.user_id me db.follows) _ _
      (λ _. record {
        profiles = refl;
        no_new = λ a h. without_follow-fewer p.user_id me a owner db.follows h;
      })
      (λ _. Guarded-refl owner db)

follow_unless-Guarded :
    (owner : ℕ) (db : Db) (a me : ℕ) (c : Bool) (rs : List SocialFollowRequest)
    → (me == owner) ≡ false
    → Guarded owner db (record (follow_unless c db a me) { requests = rs })
unfolding follow_unless follows?
follow_unless-Guarded owner db a me true rs ne = record { profiles = refl; no_new = λ b h. h }
follow_unless-Guarded owner db a me false rs ne = record {
  profiles = refl;
  no_new = λ b h. ground arith;
}

accept-Guarded :
    (owner : ℕ) (db : Db) (me : ℕ) (r : Option SocialFollowRequest)
    → (me == owner) ≡ false
    → Guarded owner db (accept_loaded db me (elim r [ none ↦ err not_found | some q ↦ ok q ])).db
unfolding accept_loaded
accept-Guarded owner db me none ne = Guarded-refl owner db
accept-Guarded owner db me (some r) ne = follow_unless-Guarded owner db r.requester_id me _ _ ne

decline-Guarded :
    (owner : ℕ) (db : Db) (r : Option SocialFollowRequest)
    → Guarded owner db (decline_loaded db (elim r [ none ↦ err not_found | some q ↦ ok q ])).db
unfolding decline_loaded
decline-Guarded owner db none = Guarded-refl owner db
decline-Guarded owner db (some r) = record { profiles = refl; no_new = λ a h. h }

apply_profile-Guarded :
    (owner : ℕ) (db : Db) (me : ℕ) (o : Option SocialProfile)
    → ((p : SocialProfile) → o ≡ some p → (me == owner) ≡ true → p.is_private ≡ true)
    → Guarded owner db (apply_profile db me o).0
apply_profile-Guarded owner db me none s = Guarded-refl owner db
apply_profile-Guarded owner db me (some p) s =
    if_elim (λ (d : Db × ℕ). Guarded owner db d.0) p.is_private _ _ (λ _. Guarded-refl owner db)
      (λ open_. swept (pending_for me db.requests) (ground (arith, s p refl)))
  where
    swept :
        (rs : List SocialFollowRequest)
        → (me == owner) ≡ false
        → Guarded owner db (apply_public db me rs).0
    swept [] ne = unfold apply_public in Guarded-refl owner db
    swept (r ∷ rs) ne =
        unfold apply_public in
        record {
          profiles = (sweep_keeps db me (r ∷ rs)).2;
          no_new = λ a h.
              ground
                (arith, follows?-sweep db me (r ∷ rs) a owner, ==_iff me owner, ==_iff owner me);
        }

-- A private account is found private.
secret_found :
    (owner : ℕ) (db : Db) (me : ℕ)
    → All (IsSecret owner) db.profiles
    → (p : SocialProfile) → get_profile db me ≡ some p
    → (me == owner) ≡ true
    → p.is_private ≡ true
unfolding get_profile
secret_found owner db me s p e same =
    let secret : IsSecret owner p = find_profile-All (IsSecret owner) me db.profiles p s e in
    ground (arith, secret, find_profile-id me db.profiles p e)

-- Every call but an acceptance by the account itself.
abbrev pub NotAcceptedBy : ℕ → Call → Type 0
NotAcceptedBy owner (accepts me id) = (me == owner) ≡ false
NotAcceptedBy owner _ = Unit {0}

module _ (normal : String → String) (owner : ℕ) where
  step-Guarded :
      (db : Db) (c : Call)
      → All (IsSecret owner) db.profiles
      → NotAcceptedBy owner c
      → Guarded owner db (step normal db c)
  unfolding step follow unfollow remove_follower accept_request decline_request
      apply_pending_requests
  step-Guarded db (follows viewer username) s n =
      follow_resolved-Guarded owner db viewer (resolve_username normal db username (some viewer))
        (λ p e. resolve_username-All (IsSecret owner) normal db username (some viewer) p s e)
  step-Guarded db (unfollows viewer username) s n = unfollow_resolved-Guarded owner db viewer _
  step-Guarded db (removes me username) s n = remove_resolved-Guarded owner db me _
  step-Guarded db (accepts me id) s n =
      accept-Guarded owner db me (find_request me id db.requests) n
  step-Guarded db (declines me id) s n = decline-Guarded owner db (find_request me id db.requests)
  step-Guarded db (opens_inbox me) s n =
      apply_profile-Guarded owner db me (get_profile db me)
        (λ p e same. secret_found owner db me s p e same)

  -- Whoever follows a private account after any sequence of calls in which the account itself accepts
  -- no request followed it before: nobody gets in by asking, by leaving and coming back, or by what
  -- others do.
  pub run_private :
      (db : Db) (cs : List Call) (a : ℕ)
      → All (IsSecret owner) db.profiles
      → All (NotAcceptedBy owner) cs
      → follows? a owner (run normal db cs).follows ≡ true
      → follows? a owner db.follows ≡ true
  unfolding run
  run_private db [] a s n h = h
  run_private db (c ∷ cs) a s n h =
      let g = step-Guarded db c s n.0 in
      g.no_new a (run_private (step normal db c) cs a (rw g.profiles s) n.1 h)
