-- ===== src/Social/Comments/Tests.antt =====
-- Comment threads on concrete data.
use loupe_backend.Prelude.{
  ℕ, String, ◌≡◌, refl, true, false, Option, none, some, List, [], ◌∷◌, arith,
}
use loupe_backend.Prelude.Text.{codes, strip}
use loupe_backend.Prelude.Tables.{find}
use loupe_backend.Social.Graph.{User, SocialProfile, SocialFollow, find_profile, is_live, follows?}
use loupe_backend.Social.Graph
use loupe_backend.Social.Comments.{
  Comment, Db, done, visible_post, parent_for, add_comment, delete_thread, delete_likes,
  delete_comment, likes?, set_like, like_comment,
}
use loupe_backend.Social.Comments.Thread.{
  has_author, select, top_rows, reply_rows, list_comments, first_rows, inline_replies,
}
use loupe_backend.Social.Comments.Pages.{read_on, list_comments_whole}
use loupe_backend.Social.Comments.Session.{Event, adds, likes, act, run}
use loupe_backend.Social.Comments.Flat.{is_flat, is_flat-run}
use loupe_backend.Social.Comments.Likes.{likes_sound, likes_sound-run}

-- User 1 wrote post 9 on a private account that user 2 follows; user 3 is banned.
abbrev graph : Graph.Db
graph = record {
  users =
      record { id = 1; deleted = false; banned = false }
      ∷ record { id = 2; deleted = false; banned = false }
      ∷ record { id = 3; deleted = false; banned = true }
      ∷ [];
  profiles =
      record { user_id = 1; username = "ann"; is_private = true }
      ∷ record { user_id = 2; username = "bob"; is_private = false }
      ∷ record { user_id = 3; username = "cy"; is_private = false }
      ∷ [];
  follows = record { follower_id = 2; followee_id = 1 } ∷ [];
  requests = [];
  next_id = 1;
}

abbrev start : Db
start = record {
  graph = graph;
  posts = (9, record { author_id = 1; deleted_at = none }) ∷ [];
  comments = [];
  likes = [];
}

abbrev said : ℕ → Option ℕ → String → Comment
said author parent s = record {
  post_id = 9;
  author_id = author;
  parent_id = parent;
  body = codes s;
}

-- A comment, a reply to it, a reply to the reply, a comment that user 3 may not write, another comment, and likes.
abbrev calls : List Event
calls =
    adds 2 21 true 9 (codes "nice") none
    ∷ adds 1 22 true 9 (codes " thanks ") (some 21)
    ∷ adds 2 23 true 9 (codes "more") (some 22)
    ∷ adds 3 24 true 9 (codes "hi") none
    ∷ adds 2 25 true 9 (codes "again") none
    ∷ adds 2 26 true 9 (codes " ") none
    ∷ likes 1 21
    ∷ likes 1 21
    ∷ likes 2 22
    ∷ []

abbrev after : Db
after = record start {
  comments =
      (21, said 2 none "nice")
      ∷ (22, said 1 (some 21) "thanks")
      ∷ (23, said 2 (some 21) "more")
      ∷ (25, said 2 none "again")
      ∷ [];
  likes = record { user_id = 2; comment_id = 22 } ∷ record { user_id = 1; comment_id = 21 } ∷ [];
}

run-calls : run start calls ≡ after
unfolding run act add_comment like_comment visible_post find find_profile is_live follows? strip
    parent_for set_like likes?
run-calls = refl

is_flat-run_example : is_flat (run start calls).comments (run start calls).comments ≡ true
unfolding is_flat
is_flat-run_example = is_flat-run start calls refl

likes_sound-run_example : likes_sound (run start calls).comments (run start calls).likes ≡ true
unfolding likes_sound
likes_sound-run_example = likes_sound-run start calls refl

list_comments_whole_example :
    read_on (λ o. list_comments after 2 9 o 1) 3 0 ≡ some (top_rows after 9)
unfolding visible_post find find_profile is_live follows? select has_author
list_comments_whole_example = list_comments_whole after 2 9 1 3 refl (omega arith) (omega arith)

top_rows-after : top_rows after 9 ≡ 21 ∷ 25 ∷ []
unfolding select has_author find_profile is_live
top_rows-after = refl

-- The author of the post deletes the first comment, with its replies and all the likes.
delete_comment-after :
    delete_comment after 1 false 21
    ≡ (done, record start { comments = (25, said 2 none "again") ∷ [] })
unfolding delete_comment find delete_thread delete_likes
delete_comment-after = refl

-- Between two pages of one comment each, this shifts the second one out of sight.
list_comments-shifted :
    list_comments (delete_comment after 1 false 21).1 2 9 1 1
    ≡ some (record { items = []; next_cursor = none; total = 1 })
unfolding list_comments visible_post select has_author delete_comment find delete_thread
    delete_likes find_profile is_live follows?
list_comments-shifted = refl

-- Two replies by a user who is banned now hide the third one from the inline replies.
abbrev banned : Db
banned = record after {
  comments =
      (21, said 2 none "nice")
      ∷ (31, said 3 (some 21) "a")
      ∷ (32, said 3 (some 21) "b")
      ∷ (33, said 1 (some 21) "c")
      ∷ [];
}

inline_replies-banned : inline_replies banned 21 ≡ []
unfolding inline_replies first_rows select has_author find_profile is_live
inline_replies-banned = refl

reply_rows-banned : reply_rows banned 21 ≡ 33 ∷ []
unfolding select has_author find_profile is_live
reply_rows-banned = refl
