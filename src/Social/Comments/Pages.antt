-- ===== src/Social/Comments/Pages.antt =====
-- That the pages of a thread make up the thread (comments.py).
use loupe_backend.Prelude.{
  if_elim, ℕ, zero, suc, ◌+◌, ◌-◌, ◌≤◌, ◌<◌, ◌≡◌, refl, sym, ap, ◌∙◌, true, Option, none, some,
  List, [], ◌∷◌, ◌++◌, arith, ltb, ◌==◌, if◌then◌else◌, ltb→lt, length, take, drop, length-take,
  length-drop,
}
use loupe_backend.Social.Comments.{Comment, Db, visible_post}
use loupe_backend.Social.Comments.Thread.{Page, select, top_rows, page_of, list_comments}

-- A client that follows the cursors, with one unit of fuel a page.
abbrev pub go_on : (ℕ → Option (List ℕ)) → Option Page → Option (List ℕ)
go_on rest none = none
go_on rest (some p) = elim p.next_cursor [
  | none ↦ some p.items
  | some o ↦ elim (rest o) [ none ↦ none | some more ↦ some (p.items ++ more) ]
]

unfoldable pub read_on : (ℕ → Option Page) → ℕ → ℕ → Option (List ℕ)
read_on page zero offset = none
read_on page (suc fuel) offset = go_on (λ o. read_on page fuel o) (page offset)

module _ {A : Type 0} where
  take-take : (n m : ℕ) (xs : List A) → n ≤ m → take n (take m xs) ≡ take n xs
  take-take zero m xs h = refl
  take-take (suc n) zero xs h = absurd (omega (arith, h))
  take-take (suc n) (suc m) [] h = refl
  take-take (suc n) (suc m) (x ∷ xs) h = ap (λ t. x ∷ t) (take-take n m xs (omega (arith, h)))

  drop_none : (n : ℕ) → ◌≡◌ {A = List A} (drop n []) []
  drop_none zero = refl
  drop_none (suc n) = refl

  drop-drop : (n m : ℕ) (xs : List A) → drop (n + m) xs ≡ drop m (drop n xs)
  drop-drop zero m xs = ap (λ (k : ℕ). drop k xs) (omega arith)
  drop-drop (suc n) m [] = drop_none (suc n + m) ∙ sym (drop_none m)
  drop-drop (suc n) m (x ∷ xs) =
      let e : suc n + m ≡ suc (n + m) = omega arith in
      ap (λ k. drop k (x ∷ xs)) e ∙ drop-drop n m xs

  take-append-drop : (n : ℕ) (xs : List A) → take n xs ++ drop n xs ≡ xs
  take-append-drop zero xs = refl
  take-append-drop (suc n) [] = refl
  take-append-drop (suc n) (x ∷ xs) = ap (λ t. x ∷ t) (take-append-drop n xs)

  take_all : (n : ℕ) (xs : List A) → length xs ≤ n → take n xs ≡ xs
  take_all zero [] h = refl
  take_all zero (x ∷ xs) h = absurd (omega (arith, h))
  take_all (suc n) [] h = refl
  take_all (suc n) (x ∷ xs) h = ap (λ t. x ∷ t) (take_all n xs (omega (arith, h)))

-- A page with more to come has `limit` items, and the last one all that are left.
page_of-items :
    (offset limit total : ℕ) (rows : List ℕ)
    → (page_of offset limit total rows).items ≡ take limit (drop offset rows)
page_of-items offset limit total rows = take-take limit (limit + 1) (drop offset rows) (omega arith)

read_on-page_of :
    (fuel offset limit total : ℕ) (rows : List ℕ)
    → 1 ≤ limit
    → length rows - offset < fuel
    → read_on (λ o. some (page_of o limit total rows)) fuel offset ≡ some (drop offset rows)
unfolding read_on
read_on-page_of zero offset limit total rows pos enough = absurd (omega (arith, enough))
read_on-page_of (suc fuel) offset limit total rows pos enough =
    if_elim {A = Option ℕ}
      (λ (next : Option ℕ).
        ◌≡◌ {A = Option (List ℕ)}
          (go_on (λ o. read_on (λ k. some (page_of k limit total rows)) fuel o)
            (some record {
              items = (page_of offset limit total rows).items;
              next_cursor = next;
              total = total;
            }))
          (some (drop offset rows)))
      (ltb limit (length (take (limit + 1) (drop offset rows)))) _ _
      (λ more.
        let longer : limit < length rows - offset = omega (
          arith,
          ltb→lt limit (length (take (limit + 1) (drop offset rows))) more,
          length-take {0} (limit + 1) (drop offset rows),
          length-drop {0} offset rows,
        ) in
        let rest : length rows - (offset + limit) < fuel = omega (arith, longer, enough, pos) in
        ap
          (λ t. elim t as (λ x. Option (List ℕ)) [
            | none ↦ none
            | some more ↦ some ((page_of offset limit total rows).items ++ more)
          ])
          (read_on-page_of fuel (offset + limit) limit total rows pos rest)
        ∙ ap (λ xs. some (xs ++ drop (offset + limit) rows)) (page_of-items offset limit total rows)
        ∙ ap (λ ys. some (take limit (drop offset rows) ++ ys)) (drop-drop offset limit rows)
        ∙ ap some (take-append-drop limit (drop offset rows)))
      (λ last.
        let short : length (take (limit + 1) (drop offset rows)) ≤ limit = ground (arith, last) in
        ap some (
          page_of-items offset limit total rows
          ∙ take_all limit (drop offset rows) (
              omega (
                arith,
                short,
                length-take {0} (limit + 1) (drop offset rows),
                length-drop {0} offset rows,
              ))))

-- The pages make up the thread: a client that may see the post and follows the cursors from the start, with any page
-- size of at least one, gets every top-level comment by an author who has a profile and is neither deleted nor
-- banned, once and in order, while the thread does not change, after at most as many pages as there are such comments and one more.
pub list_comments_whole :
    (db : Db) (viewer post limit fuel : ℕ)
    → visible_post db viewer post ≡ true
    → 1 ≤ limit
    → length (top_rows db post) < fuel
    → read_on (λ o. list_comments db viewer post o limit) fuel 0 ≡ some (top_rows db post)
unfolding list_comments
list_comments_whole db viewer post limit fuel visible pos enough =
    let total = length (select (λ (c : Comment). c.post_id == post) db.comments) in
    ap
      (λ b.
        read_on (λ o. if b then some (page_of o limit total (top_rows db post)) else none) fuel 0)
      visible
    ∙ read_on-page_of fuel 0 limit total (top_rows db post) pos (omega (arith, enough))
