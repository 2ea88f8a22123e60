-- ===== src/Social/Safety/Takedown.antt =====
-- What an answer does to the content (safety.py).
use loupe_backend.Prelude.{
  ℕ, ◌≡◌, refl, ap, ◌∙◌, inl, inr, Bool, false, ◌&&◌, ◌||◌, not, Option, none, some, [], ◌∷◌, arith,
  ◌==◌, if◌then◌else◌, is_some, ==_iff, Bool-cases,
}
use loupe_backend.Prelude.Text.{codes, text_eq}
use loupe_backend.Social.Safety.{
  Target, post, comment, profile, store_review, collection, story, story_comment, Case, Comment,
  Profile, Story, Db, same_target,
}
use loupe_backend.Social.Safety.Report.{author_of}
use loupe_backend.Social.Safety.Resolve.{
  remove_target, clear_avatar, hide_post, hide_story, is_gone, delete_gone, delete_thread,
  resolve_case, resolve,
}
use loupe_backend.Prelude.Tables.{Table, find, change, find-change}

abbrev has_avatar : Option Profile → Bool
has_avatar none = false
has_avatar (some p) = is_some p.avatar_key

abbrev is_live : Option Story → Bool
is_live none = false
is_live (some s) = not (is_some s.deleted_at)

-- Whether the content of a target is shown: for a profile, its picture.
unfoldable pub shown : Db → Target → ℕ → Bool
unfolding author_of find
shown db profile id = has_avatar (find id db.profiles)
shown db story id = is_live (find id db.stories)
shown db story_comment id = is_live (find id db.story_comments)
shown db post id = is_some (author_of db post id)
shown db comment id = is_some (author_of db comment id)
shown db _ id = false

-- The takedown table by table.
abbrev taken_down : Db → Target → ℕ → ℕ → Db
taken_down db k id now = record db {
  posts = (if same_target k post then change id (hide_post now) db.posts else db.posts);
  comments = (if same_target k comment then delete_thread id db.comments else db.comments);
  profiles = (if same_target k profile then change id clear_avatar db.profiles else db.profiles);
  stories = (if same_target k story then change id (hide_story now) db.stories else db.stories);
  story_comments =
      (if same_target k story_comment
        then change id (hide_story now) db.story_comments
        else db.story_comments);
}

remove_target-tables :
    (db : Db) (k : Target) (id now : ℕ) → remove_target db k id now ≡ taken_down db k id now
unfolding remove_target same_target
remove_target-tables db post id now = refl
remove_target-tables db comment id now = refl
remove_target-tables db profile id now = refl
remove_target-tables db store_review id now = refl
remove_target-tables db collection id now = refl
remove_target-tables db story id now = refl
remove_target-tables db story_comment id now = refl

find-delete_gone :
    (id j : ℕ) (t r : Table Comment)
    → find j (delete_gone id t r) ≡ (if is_gone id j (find j t) then none else find j r)
unfolding find delete_gone
find-delete_gone id j t [] = ground arith
find-delete_gone id j t ((i, c) ∷ r) = elim (Bool-cases (i == j)) [
  | inl same ↦
      (let e : find i t ≡ find j t = ap (λ k. find k t) ((==_iff i j).0 same) in
        ground (arith, same, find-delete_gone id j t r, e, ==_iff i j))
  | inr apart ↦ ground (arith, apart, find-delete_gone id j t r)
]

abbrev is_reply_to : ℕ → Option Comment → Bool
is_reply_to id none = false
is_reply_to id (some c) = elim c.parent_id [ none ↦ false | some p ↦ p == id ]

-- Whether content goes with a target: it is the target, or a reply to the comment that is.
unfoldable pub goes_with : Db → Target → ℕ → Target → ℕ → Bool
unfolding find same_target
goes_with db k id l j =
    same_target k l && (j == id || same_target l comment && is_reply_to id (find j db.comments))

shown-taken_down :
    (db : Db) (k l : Target) (id j now : ℕ)
    → shown (taken_down db k id now) l j ≡ (shown db l j && not (goes_with db k id l j))
unfolding shown author_of clear_avatar hide_post hide_story goes_with same_target delete_thread
shown-taken_down db k post id j now = ground (arith, find-change id j (hide_post now) db.posts)
shown-taken_down db k comment id j now =
    ground (arith, find-delete_gone id j db.comments db.comments)
shown-taken_down db k profile id j now = ground (arith, find-change id j clear_avatar db.profiles)
shown-taken_down db k story id j now = ground (arith, find-change id j (hide_story now) db.stories)
shown-taken_down db k story_comment id j now =
    ground (arith, find-change id j (hide_story now) db.story_comments)
shown-taken_down db k store_review id j now = refl
shown-taken_down db k collection id j now = refl

-- What an answer "remove" takes down: the target's content, when it is a post, a comment, a picture, a
-- story or a comment on a story, with a comment also the replies to it, and no other content of these kinds.
pub shown-resolve :
    (db : Db) (admin case_id now : ℕ) (c : Case)
    → find case_id db.cases ≡ some c
    → (l : Target) (j : ℕ)
    → shown (resolve db admin case_id (codes "remove") now).1 l j
      ≡ (shown db l j && not (goes_with db c.target_type c.target_id l j))
unfolding resolve shown text_eq
shown-resolve db admin case_id now c e l j =
    ap (λ o. shown (resolve_case db admin case_id (codes "remove") now o).1 l j) e
    ∙ ap (λ d. shown d l j) (remove_target-tables db c.target_type c.target_id now)
    ∙ shown-taken_down db c.target_type l c.target_id j now
