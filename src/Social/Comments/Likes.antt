-- ===== src/Social/Comments/Likes.antt =====
-- That likes are of comments that are there (comments.py).
use loupe_backend.Prelude.{
  if_elim, ℕ, ◌≡◌, refl, inl, inr, Bool, true, false, ◌&&◌, ◌||◌, not, Option, none, some, List, [],
  ◌∷◌, ◌++◌, arith, ◌==◌, is_some, ==_iff, Bool-cases,
}
use loupe_backend.Prelude.Text.{Text, strip}
use loupe_backend.Prelude.Tables.{Table, find}
use loupe_backend.Social.Comments.{
  Comment, Like, Db, Answer, parent_for, insert_comment, add_comment, delete_thread, is_gone,
  delete_likes, wrote_post, delete_found, delete_comment, likes?, unliked, set_like, like_found,
  like_comment,
}
use loupe_backend.Social.Comments.Session.{
  Event, adds, deletes, likes, unlikes, elsewhere, act, run,
}
use loupe_backend.Social.Comments.Flat.{find-append}

-- Each like is of a comment in the table, and no user's like of one is there twice.
unfoldable pub likes_sound : Table Comment → List Like → Bool
unfolding find likes?
likes_sound t [] = true
likes_sound t (l ∷ ls) =
    is_some (find l.comment_id t) && not (likes? l.user_id l.comment_id ls) && likes_sound t ls

likes_sound-append :
    (t : Table Comment) (id : ℕ) (c : Comment) (ls : List Like)
    → likes_sound t ls ≡ true
    → likes_sound (t ++ (id, c) ∷ []) ls ≡ true
unfolding likes_sound
likes_sound-append t id c [] e = refl
likes_sound-append t id c (l ∷ ls) e =
    ground
      (arith, e, likes_sound-append t id c ls (ground (arith, e)), find-append l.comment_id id c t)

likes_sound-insert_comment :
    (db : Db) (id author post : ℕ) (body : Text) (o : Option (Option ℕ))
    → likes_sound db.comments db.likes ≡ true
    → likes_sound
        (insert_comment db id author post body o).1.comments
        (insert_comment db id author post body o).1.likes
      ≡ true
likes_sound-insert_comment db id author post body none e = e
likes_sound-insert_comment db id author post body (some q) e =
    if_elim {A = Answer × Db} (λ r. likes_sound r.1.comments r.1.likes ≡ true)
      (is_some (find id db.comments)) _ _ (λ _. e)
      (λ _.
        likes_sound-append db.comments id
          (record { post_id = post; author_id = author; parent_id = q; body = body }) db.likes e)

-- A comment that does not go with another one is still found.
find-delete_thread :
    (id k : ℕ) (t : Table Comment)
    → (is_some (find k t)
        && not (is_gone id (find k t) k)
        && not (is_some (find k (delete_thread id t))))
      ≡ false
unfolding find delete_thread
find-delete_thread id k [] = refl
find-delete_thread id k ((i, c) ∷ t) = elim (Bool-cases (i == k)) [
  | inl same ↦ ground (arith, same, ==_iff i k, ==_iff i id, ==_iff k id)
  | inr apart ↦ (let ih = find-delete_thread id k t in ground (arith, ih, apart))
]

likes?-delete_likes :
    (id u c : ℕ) (t : Table Comment) (ls : List Like)
    → (likes? u c (delete_likes id t ls) && not (likes? u c ls)) ≡ false
unfolding likes? delete_likes
likes?-delete_likes id u c t [] = refl
likes?-delete_likes id u c t (l ∷ ls) = ground (arith, likes?-delete_likes id u c t ls)

likes_sound-delete_likes :
    (id : ℕ) (t : Table Comment) (ls : List Like)
    → likes_sound t ls ≡ true
    → likes_sound (delete_thread id t) (delete_likes id t ls) ≡ true
unfolding likes_sound delete_likes
likes_sound-delete_likes id t [] e = refl
likes_sound-delete_likes id t (l ∷ ls) e = ground (
  arith,
  e,
  likes_sound-delete_likes id t ls (ground (arith, e)),
  find-delete_thread id l.comment_id t,
  likes?-delete_likes id l.user_id l.comment_id t ls,
)

likes?-unliked :
    (v k u c : ℕ) (ls : List Like)
    → likes? u c (unliked v k ls) ≡ (likes? u c ls && not (v == u && k == c))
unfolding likes? unliked
likes?-unliked v k u c [] = refl
likes?-unliked v k u c (l ∷ ls) = ground (
  arith,
  likes?-unliked v k u c ls,
  ==_iff l.user_id v,
  ==_iff l.user_id u,
  ==_iff v u,
  ==_iff l.comment_id k,
  ==_iff l.comment_id c,
  ==_iff k c,
)

likes_sound-unliked :
    (t : Table Comment) (v k : ℕ) (ls : List Like)
    → likes_sound t ls ≡ true
    → likes_sound t (unliked v k ls) ≡ true
unfolding likes_sound unliked
likes_sound-unliked t v k [] e = refl
likes_sound-unliked t v k (l ∷ ls) e = ground (
  arith,
  e,
  likes_sound-unliked t v k ls (ground (arith, e)),
  likes?-unliked v k l.user_id l.comment_id ls,
)

likes_sound-like_found :
    (db : Db) (viewer id : ℕ) (liked : Bool) (o : Option Comment)
    → find id db.comments ≡ o
    → likes_sound db.comments db.likes ≡ true
    → likes_sound
        (like_found db viewer id liked o).1.comments
        (like_found db viewer id liked o).1.likes
      ≡ true
unfolding set_like likes_sound
likes_sound-like_found db viewer id liked none there e = e
likes_sound-like_found db viewer id liked (some c) there e =
    ground (arith, e, there, likes_sound-unliked db.comments viewer id db.likes e)

likes_sound-delete_found :
    (db : Db) (viewer id : ℕ) (staff : Bool) (o : Option Comment)
    → likes_sound db.comments db.likes ≡ true
    → likes_sound
        (delete_found db viewer staff id o).1.comments
        (delete_found db viewer staff id o).1.likes
      ≡ true
likes_sound-delete_found db viewer id staff none e = e
likes_sound-delete_found db viewer id staff (some c) e =
    if_elim {A = Answer × Db} (λ r. likes_sound r.1.comments r.1.likes ≡ true)
      (c.author_id == viewer || wrote_post viewer (find c.post_id db.posts) || staff) _ _
      (λ _. likes_sound-delete_likes id db.comments db.likes e) (λ _. e)

likes_sound-act :
    (db : Db) (e : Event)
    → likes_sound db.comments db.likes ≡ true
    → likes_sound (act db e).comments (act db e).likes ≡ true
unfolding act add_comment delete_comment like_comment
likes_sound-act db (adds author id passes post body parent) sound = ground (
  arith,
  sound,
  likes_sound-insert_comment db id author post (strip body) (parent_for db post parent) sound,
)
likes_sound-act db (deletes viewer staff id) sound =
    likes_sound-delete_found db viewer id staff (find id db.comments) sound
likes_sound-act db (likes viewer id) sound =
    likes_sound-like_found db viewer id true (find id db.comments) refl sound
likes_sound-act db (unlikes viewer id) sound =
    likes_sound-like_found db viewer id false (find id db.comments) refl sound
likes_sound-act db (elsewhere graph posts) sound = sound

-- Likes are honest: after any calls, in any order, every like is of a comment that is there, also when comments
-- have been deleted with their replies, and no user's like of a comment counts twice.
pub likes_sound-run :
    (db : Db) (es : List Event)
    → likes_sound db.comments db.likes ≡ true
    → likes_sound (run db es).comments (run db es).likes ≡ true
unfolding run
likes_sound-run db [] sound = sound
likes_sound-run db (e ∷ es) sound = likes_sound-run (act db e) es (likes_sound-act db e sound)
