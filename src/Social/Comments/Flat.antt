-- ===== src/Social/Comments/Flat.antt =====
-- That threads stay one level deep (comments.py).
use loupe_backend.Prelude.{
  if_elim, ℕ, ◌≡◌, refl, sym, ap, ◌∙◌, inl, inr, Bool, true, false, ◌&&◌, ◌||◌, not, Option, none,
  some, List, [], ◌∷◌, ◌++◌, arith, ◌==◌, if◌then◌else◌, is_some, ==_iff, Bool-cases,
}
use loupe_backend.Prelude.Text.{Text, strip}
use loupe_backend.Prelude.Tables.{Table, find}
use loupe_backend.Social.Comments.{
  Comment, Db, Answer, visible_post, flattened, parent_for, insert_comment, add_comment, replies_to,
  delete_thread, wrote_post, delete_found, delete_comment, like_found, like_comment,
}
use loupe_backend.Social.Comments.Session.{
  Event, adds, deletes, likes, unlikes, elsewhere, act, run,
}

-- The parent is there, on the same post, and no reply itself.
abbrev pub is_parent : ℕ → Option Comment → Bool
is_parent post none = false
is_parent post (some p) = p.post_id == post && not (is_some p.parent_id)

abbrev pub parent_ok : Table Comment → ℕ → Option ℕ → Bool
parent_ok t post none = true
parent_ok t post (some p) = is_parent post (find p t)

-- That the rows are replies as they should be, in the whole table t.
unfoldable pub is_flat : Table Comment → Table Comment → Bool
unfolding find
is_flat t [] = true
is_flat t ((i, c) ∷ r) = parent_ok t c.post_id c.parent_id && is_flat t r

pub find-append :
    (j id : ℕ) (c : Comment) (t : Table Comment)
    → find j (t ++ (id, c) ∷ [])
      ≡ elim (find j t) [ none ↦ (if id == j then some c else none) | some a ↦ some a ]
unfolding find
find-append j id c [] = refl
find-append j id c ((i, a) ∷ t) = ground (arith, find-append j id c t)

parent_ok-append :
    (t : Table Comment) (post id : ℕ) (c : Comment) (o : Option ℕ)
    → parent_ok t post o ≡ true
    → parent_ok (t ++ (id, c) ∷ []) post o ≡ true
parent_ok-append t post id c none e = refl
parent_ok-append t post id c (some p) e =
    ap (is_parent post) (find-append p id c t) ∙ kept (find p t) e
  where
    kept :
        (o : Option Comment)
        → is_parent post o ≡ true
        → is_parent post (elim o [ none ↦ (if id == p then some c else none) | some a ↦ some a ])
          ≡ true
    kept none d = ground (arith, d)
    kept (some a) d = d

is_flat-append :
    (t r : Table Comment) (id : ℕ) (c : Comment)
    → is_flat t r ≡ true
    → parent_ok t c.post_id c.parent_id ≡ true
    → is_flat (t ++ (id, c) ∷ []) (r ++ (id, c) ∷ []) ≡ true
unfolding is_flat
is_flat-append t [] id c e fits = rw (parent_ok-append t c.post_id id c c.parent_id fits) refl
is_flat-append t ((i, a) ∷ r) id c e fits =
    rw (parent_ok-append t a.post_id id c a.parent_id (ground (arith, e)))
      (is_flat-append t r id c (ground (arith, e)) fits)

abbrev row_ok : Table Comment → Option Comment → Bool
row_ok t none = true
row_ok t (some c) = parent_ok t c.post_id c.parent_id

-- The row that is found is one of the rows.
row_ok-find : (t r : Table Comment) (k : ℕ) → is_flat t r ≡ true → row_ok t (find k r) ≡ true
unfolding is_flat find
row_ok-find t [] k e = refl
row_ok-find t ((i, a) ∷ r) k e =
    if_elim {A = Option Comment} (λ o. row_ok t o ≡ true) (i == k) _ _ (λ _. ground (arith, e))
      (λ _. row_ok-find t r k (ground (arith, e)))

-- The parent that a reply gets is one.
abbrev new_ok : Table Comment → ℕ → Option (Option ℕ) → Bool
new_ok t post none = true
new_ok t post (some q) = parent_ok t post q

new_ok-flattened :
    (t : Table Comment) (post p : ℕ) (o : Option Comment)
    → find p t ≡ o
    → row_ok t o ≡ true
    → new_ok t post (flattened post p o) ≡ true
new_ok-flattened t post p none there e = refl
new_ok-flattened t post p (some c) there e =
    if_elim {A = Option (Option ℕ)} (λ q. new_ok t post q ≡ true) (c.post_id == post) _ _
      (λ same. known c.parent_id refl same) (λ _. refl)
  where
    known :
        (q : Option ℕ)
        → c.parent_id ≡ q
        → (c.post_id == post) ≡ true
        → is_parent post (find (elim q [ none ↦ p | some k ↦ k ]) t) ≡ true
    known none top same = ap (is_parent post) there ∙ ground (arith, same, top)
    known (some k) at same =
        ap (λ n. is_parent n (find k t)) (sym ((==_iff c.post_id post).0 same))
        ∙ sym (ap (parent_ok t c.post_id) at)
        ∙ e

new_ok-parent_for :
    (db : Db) (post : ℕ) (o : Option ℕ)
    → is_flat db.comments db.comments ≡ true
    → new_ok db.comments post (parent_for db post o) ≡ true
unfolding parent_for
new_ok-parent_for db post none e = refl
new_ok-parent_for db post (some p) e =
    new_ok-flattened db.comments post p (find p db.comments) refl
      (row_ok-find db.comments db.comments p e)

is_flat-insert_comment :
    (db : Db) (id author post : ℕ) (body : Text) (o : Option (Option ℕ))
    → is_flat db.comments db.comments ≡ true
    → new_ok db.comments post o ≡ true
    → let out = (insert_comment db id author post body o).1.comments in is_flat out out ≡ true
is_flat-insert_comment db id author post body none e fits = e
is_flat-insert_comment db id author post body (some q) e fits =
    if_elim {A = Answer × Db} (λ r. is_flat r.1.comments r.1.comments ≡ true)
      (is_some (find id db.comments)) _ _ (λ _. e)
      (λ _.
        is_flat-append db.comments db.comments id
          (record { post_id = post; author_id = author; parent_id = q; body = body }) e fits)

is_parent-delete_thread :
    (id p post : ℕ) (t : Table Comment)
    → (p == id) ≡ false
    → is_parent post (find p t) ≡ true
    → is_parent post (find p (delete_thread id t)) ≡ true
unfolding find delete_thread
is_parent-delete_thread id p post [] other e = e
is_parent-delete_thread id p post ((i, c) ∷ t) other e = elim (Bool-cases (i == p)) [
  | inl same ↦ ground (arith, e, other, same, ==_iff i p, ==_iff i id, ==_iff p id)
  | inr apart ↦
      (let ih = is_parent-delete_thread id p post t other (ground (arith, e, apart)) in
        ground (arith, ih, apart))
]

parent_ok-delete_thread :
    (id post : ℕ) (t : Table Comment) (c : Comment)
    → replies_to id c ≡ false
    → parent_ok t post c.parent_id ≡ true
    → parent_ok (delete_thread id t) post c.parent_id ≡ true
parent_ok-delete_thread id post t c = known c.parent_id
  where
    known :
        (q : Option ℕ)
        → elim q [ none ↦ false | some p ↦ p == id ] ≡ false
        → parent_ok t post q ≡ true
        → parent_ok (delete_thread id t) post q ≡ true
    known none other e = refl
    known (some p) other e = is_parent-delete_thread id p post t other e

is_flat-delete_thread :
    (id : ℕ) (t r : Table Comment)
    → is_flat t r ≡ true
    → is_flat (delete_thread id t) (delete_thread id r) ≡ true
unfolding is_flat delete_thread
is_flat-delete_thread id t [] e = refl
is_flat-delete_thread id t ((i, c) ∷ r) e =
    if_elim {A = Table Comment} (λ x. is_flat (delete_thread id t) x ≡ true)
      (i == id || replies_to id c) _ _ (λ _. is_flat-delete_thread id t r (ground (arith, e)))
      (λ stays.
        rw (parent_ok-delete_thread id c.post_id t c (ground (arith, stays)) (ground (arith, e)))
          (is_flat-delete_thread id t r (ground (arith, e))))

is_flat-add_comment :
    (db : Db) (author id post : ℕ) (passes : Bool) (body : Text) (parent : Option ℕ)
    → is_flat db.comments db.comments ≡ true
    → is_flat
        (add_comment db author id passes post body parent).1.comments
        (add_comment db author id passes post body parent).1.comments
      ≡ true
unfolding add_comment
is_flat-add_comment db author id post passes body parent e = ground (
  arith,
  e,
  is_flat-insert_comment db id author post (strip body) (parent_for db post parent) e
      (new_ok-parent_for db post parent e),
)

is_flat-delete_found :
    (db : Db) (viewer id : ℕ) (staff : Bool) (o : Option Comment)
    → is_flat db.comments db.comments ≡ true
    → is_flat
        (delete_found db viewer staff id o).1.comments
        (delete_found db viewer staff id o).1.comments
      ≡ true
is_flat-delete_found db viewer id staff none e = e
is_flat-delete_found db viewer id staff (some c) e =
    if_elim {A = Answer × Db} (λ r. is_flat r.1.comments r.1.comments ≡ true)
      (c.author_id == viewer || wrote_post viewer (find c.post_id db.posts) || staff) _ _
      (λ _. is_flat-delete_thread id db.comments db.comments e) (λ _. e)

comments-like_found :
    (db : Db) (viewer id : ℕ) (liked : Bool) (o : Option Comment)
    → (like_found db viewer id liked o).1.comments ≡ db.comments
comments-like_found db viewer id liked none = refl
comments-like_found db viewer id liked (some c) =
    if_elim {A = Answer × Db} (λ r. r.1.comments ≡ db.comments) (visible_post db viewer c.post_id) _
      _ (λ _. refl) (λ _. refl)

is_flat-act :
    (db : Db) (e : Event)
    → is_flat db.comments db.comments ≡ true
    → is_flat (act db e).comments (act db e).comments ≡ true
unfolding act delete_comment like_comment
is_flat-act db (adds author id passes post body parent) flat =
    is_flat-add_comment db author id post passes body parent flat
is_flat-act db (deletes viewer staff id) flat =
    is_flat-delete_found db viewer id staff (find id db.comments) flat
is_flat-act db (likes viewer id) flat =
    rw (comments-like_found db viewer id true (find id db.comments)) flat
is_flat-act db (unlikes viewer id) flat =
    rw (comments-like_found db viewer id false (find id db.comments)) flat
is_flat-act db (elsewhere graph posts) flat = flat

-- Threads stay one level deep: whatever comments, replies to comments and to replies, deletions and likes there are, in
-- any order and whatever happens to the graph and the posts, every reply's parent exists, stands on
-- the same post and is not a reply.
pub is_flat-run :
    (db : Db) (es : List Event)
    → is_flat db.comments db.comments ≡ true
    → is_flat (run db es).comments (run db es).comments ≡ true
unfolding run
is_flat-run db [] flat = flat
is_flat-run db (e ∷ es) flat = is_flat-run (act db e) es (is_flat-act db e flat)
