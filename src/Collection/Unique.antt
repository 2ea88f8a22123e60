-- ===== src/Collection/Unique.antt =====
-- That no card is in a collection twice, which the primary key forbids (collection_service.py).
use loupe_backend.Prelude.{
  if_elim, ℕ, ◌≡◌, refl, Bool, true, false, ◌&&◌, not, Option, none, some, List, [], ◌∷◌, arith,
  ◌==◌, ==_iff,
}
use loupe_backend.Collection.{
  Item, Db, Answer, has_item, member, drop_items, drop_collection, delete_row,
}
use loupe_backend.Collection.Calls.{
  create, update, delete_owned, add_item, remove_item, unique, to_add, insert_items, bulk_add_items,
  bulk_remove_items, removed, then_remove, transfer_items, move_items, merge,
}
use loupe_backend.Collection.Rows.{
  has_item-drop_items, has_item-drop_collection, has_item-insert_items, member-to_add,
  member-unique,
}
use loupe_backend.Collection.Merge.{merged, move_items-was}
use loupe_backend.Collection.Session.{
  Event, creates, updates, deletes, adds, removes, bulk_adds, bulk_removes, transfers, merges,
  files, trashes, act, run, file_card,
}

unfoldable pub no_repeats : List Item → Bool
unfolding has_item
no_repeats [] = true
no_repeats (i ∷ is_) = not (has_item i.collection_id i.graded_card_id is_) && no_repeats is_

unfoldable distinct : List ℕ → Bool
unfolding member
distinct [] = true
distinct (x ∷ xs) = not (member x xs) && distinct xs

no_repeats-drop_items :
    (d : ℕ) (ids : List ℕ) (is_ : List Item)
    → no_repeats is_ ≡ true
    → no_repeats (drop_items d ids is_) ≡ true
unfolding no_repeats drop_items
no_repeats-drop_items d ids [] e = refl
no_repeats-drop_items d ids (i ∷ is_) e = ground (
  arith,
  e,
  no_repeats-drop_items d ids is_ (ground (arith, e)),
  has_item-drop_items i.collection_id i.graded_card_id d ids is_,
)

no_repeats-drop_collection :
    (d : ℕ) (is_ : List Item) → no_repeats is_ ≡ true → no_repeats (drop_collection d is_) ≡ true
unfolding no_repeats drop_collection
no_repeats-drop_collection d [] e = refl
no_repeats-drop_collection d (i ∷ is_) e = ground (
  arith,
  e,
  no_repeats-drop_collection d is_ (ground (arith, e)),
  has_item-drop_collection i.collection_id i.graded_card_id d is_,
)

distinct-unique : (seen xs : List ℕ) → distinct (unique seen xs) ≡ true
unfolding distinct unique member
distinct-unique seen [] = refl
distinct-unique seen (x ∷ xs) =
    ground (arith, distinct-unique (x ∷ seen) xs, member-unique x (x ∷ seen) xs, ==_iff x x)

distinct-to_add :
    (db : Db) (user id : ℕ) (gs : List ℕ)
    → distinct gs ≡ true
    → distinct (to_add db user id gs) ≡ true
unfolding distinct to_add
distinct-to_add db user id [] e = refl
distinct-to_add db user id (g ∷ gs) e =
    ground
      (arith, e, distinct-to_add db user id gs (ground (arith, e)), member-to_add db user id g gs)

no_repeats-insert_items :
    (d : ℕ) (gs : List ℕ) (is_ : List Item)
    → distinct gs ≡ true
    → ((g : ℕ) → (member g gs && has_item d g is_) ≡ false)
    → no_repeats is_ ≡ true
    → no_repeats (insert_items d gs is_) ≡ true
unfolding no_repeats insert_items distinct member
no_repeats-insert_items d [] is_ dist fresh e = e
no_repeats-insert_items d (g ∷ gs) is_ dist fresh e = ground (
  arith,
  dist,
  fresh g,
  has_item-insert_items d g d gs is_,
  ==_iff g g,
  no_repeats-insert_items d gs is_ (ground (arith, dist)) (λ x. ground (arith, fresh x)) e,
)

no_repeats-move_items :
    (t s : ℕ) (before is_ : List Item)
    → ((c g : ℕ) → (has_item c g is_ && not (has_item c g before)) ≡ false)
    → no_repeats is_ ≡ true
    → no_repeats (move_items t s before is_) ≡ true
unfolding no_repeats move_items has_item
no_repeats-move_items t s before [] within e = refl
no_repeats-move_items t s before (i ∷ is_) within e = ground (
  arith,
  e,
  within t i.graded_card_id,
  no_repeats-move_items t s before is_ (λ c g. ground (arith, within c g)) (ground (arith, e)),
  move_items-was t s t i.graded_card_id before is_,
  move_items-was t s i.collection_id i.graded_card_id before is_,
  ==_iff i.collection_id s,
  ==_iff t i.collection_id,
)

no_repeats-add :
    (db : Db) (user id : ℕ) (ids : List ℕ)
    → no_repeats db.items ≡ true
    → no_repeats (insert_items id (to_add db user id (unique [] ids)) db.items) ≡ true
no_repeats-add db user id ids e =
    no_repeats-insert_items id (to_add db user id (unique [] ids)) db.items
      (distinct-to_add db user id (unique [] ids) (distinct-unique [] ids))
      (λ g. ground (arith, member-to_add db user id g (unique [] ids))) e

no_repeats-bulk_add_items :
    (db : Db) (user id : ℕ) (ids : List ℕ)
    → no_repeats db.items ≡ true
    → no_repeats (bulk_add_items db user id ids).1.items ≡ true
unfolding bulk_add_items
no_repeats-bulk_add_items db user id ids e = ground (arith, e, no_repeats-add db user id ids e)

no_repeats-bulk_remove_items :
    (db : Db) (user id : ℕ) (ids : List ℕ)
    → no_repeats db.items ≡ true
    → no_repeats (bulk_remove_items db user id ids).1.items ≡ true
unfolding bulk_remove_items
no_repeats-bulk_remove_items db user id ids e =
    ground (arith, e, no_repeats-drop_items id (unique [] ids) db.items e)

no_repeats-removed :
    (n : ℕ) (r : Option ℕ × Db)
    → no_repeats r.1.items ≡ true
    → no_repeats (removed n r).1.items ≡ true
no_repeats-removed n (none, db) e = e
no_repeats-removed n (some m, db) e = e

no_repeats-then_remove :
    (user source : ℕ) (ids : List ℕ) (r : Option ℕ × Db)
    → no_repeats r.1.items ≡ true
    → no_repeats (then_remove user source ids r).1.items ≡ true
no_repeats-then_remove user source ids (none, db) e = e
no_repeats-then_remove user source ids (some n, db) e =
    no_repeats-removed n (bulk_remove_items db user source ids)
      (no_repeats-bulk_remove_items db user source ids e)

no_repeats-merged :
    (db : Db) (target source : ℕ)
    → no_repeats db.items ≡ true
    → no_repeats (merged db target source).items ≡ true
unfolding merged delete_row
no_repeats-merged db target source e =
    no_repeats-drop_collection source (move_items target source db.items db.items)
      (no_repeats-move_items target source db.items db.items (λ c g. ground arith) e)

no_repeats-act :
    (db : Db) (e : Event) → no_repeats db.items ≡ true → no_repeats (act db e).items ≡ true
unfolding act create update delete_owned delete_row add_item remove_item transfer_items merge merged
    file_card no_repeats
no_repeats-act db (creates user id passes p) u = ground (arith, u)
no_repeats-act db (updates user id passes p) u = ground (arith, u)
no_repeats-act db (deletes user id) u = ground (arith, u, no_repeats-drop_collection id db.items u)
no_repeats-act db (adds user id g) u = ground (arith, u)
no_repeats-act db (removes user id g) u =
    ground (arith, u, no_repeats-drop_items id (g ∷ []) db.items u)
no_repeats-act db (bulk_adds user id gs) u = no_repeats-bulk_add_items db user id gs u
no_repeats-act db (bulk_removes user id gs) u = no_repeats-bulk_remove_items db user id gs u
no_repeats-act db (transfers user target source gs) u =
    if_elim {A = Answer × Db} (λ r. no_repeats r.1.items ≡ true) (target == source) _ _ (λ _. u)
      (λ _.
        no_repeats-then_remove user source gs (bulk_add_items db user target gs)
          (no_repeats-bulk_add_items db user target gs u))
no_repeats-act db (merges user target source) u =
    ground (arith, u, no_repeats-merged db target source u)
no_repeats-act db (files user g) u = ground (arith, u)
no_repeats-act db (trashes g now) u = u

-- Whatever calls users make, in any order, no card gets into a collection twice: neither a single nor a bulk
-- addition, nor a transfer, nor a merge of two collections that share cards, ever breaks the primary key of the items.
pub no_repeats-run :
    (db : Db) (es : List Event) → no_repeats db.items ≡ true → no_repeats (run db es).items ≡ true
unfolding run
no_repeats-run db [] u = u
no_repeats-run db (e ∷ es) u = no_repeats-run (act db e) es (no_repeats-act db e u)
