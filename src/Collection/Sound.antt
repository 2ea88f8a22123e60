-- ===== src/Collection/Sound.antt =====
-- That every item holds a card of the owner of its collection (collection_service.py).
use loupe_backend.Prelude.{
  if_elim, ℕ, ◌≡◌, refl, Bool, true, false, ◌&&◌, not, Option, none, some, List, [], ◌∷◌, arith,
  ◌==◌, ==_iff,
}
use loupe_backend.Prelude.Tables.{find, change, find-change, find-delete}
use loupe_backend.Collection.{
  Collection, Card, Db, CollectionCreate, CollectionUpdate, Answer, is_mine, get_owned, is_live,
  owns_live, has_item, delete_row,
}
use loupe_backend.Collection.Calls.{
  create, updated, update, delete_owned, add_item, remove_item, bulk_add_items, bulk_remove_items,
  removed, then_remove, transfer_items, merge,
}
use loupe_backend.Collection.Rows.{has_item-drop_items, has_item-drop_collection}
use loupe_backend.Collection.Transfer.{drop_unique, insert_new}
use loupe_backend.Collection.Merge.{merged, has_item-merged}
use loupe_backend.Collection.Session.{
  Event, creates, updates, deletes, adds, removes, bulk_adds, bulk_removes, transfers, merges,
  files, trashes, file_card, trash, act, run,
}

abbrev pub same_owner : Option Collection → Option Card → Bool
same_owner none a = false
same_owner (some c) none = false
same_owner (some c) (some a) = a.user_id == c.user_id

unfoldable pub is_rightful : Db → ℕ → ℕ → Bool
unfolding find
is_rightful db c g = same_owner (find c db.collections) (find g db.cards)

-- No item whose collection or card is gone, or whose owners differ.
abbrev pub IsSound : Db → Type 0
IsSound db = (c g : ℕ) → (has_item c g db.items && not (is_rightful db c g)) ≡ false

same_owner-live :
    (user : ℕ) (o : Option Collection) (a : Option Card)
    → (is_mine user o && is_live user a && not (same_owner o a)) ≡ false
same_owner-live user none a = refl
same_owner-live user (some c) none = ground arith
same_owner-live user (some c) (some a) =
    ground (arith, ==_iff c.user_id user, ==_iff a.user_id user, ==_iff a.user_id c.user_id)

same_owner-mine :
    (user : ℕ) (o p : Option Collection) (a : Option Card)
    → (is_mine user o && is_mine user p && same_owner p a && not (same_owner o a)) ≡ false
same_owner-mine user none p a = refl
same_owner-mine user (some c) none a = ground arith
same_owner-mine user (some c) (some d) none = ground arith
same_owner-mine user (some c) (some d) (some a) = ground (
  arith,
  ==_iff c.user_id user,
  ==_iff d.user_id user,
  ==_iff a.user_id c.user_id,
  ==_iff a.user_id d.user_id,
)

create-IsSound :
    (db : Db) (user id : ℕ) (passes : Bool) (p : CollectionCreate)
    → IsSound db
    → IsSound (create db user id passes p).1
unfolding create is_rightful find
create-IsSound db user id passes p sound c g = ground (arith, sound c g, ==_iff id c)

update-IsSound :
    (db : Db) (user id : ℕ) (passes : Bool) (p : CollectionUpdate)
    → IsSound db
    → IsSound (update db user id passes p).1
unfolding update is_rightful updated
update-IsSound db user id passes p sound c g =
    ground (arith, sound c g, find-change id c (updated p) db.collections)

delete_row-IsSound : (db : Db) (id : ℕ) → IsSound db → IsSound (delete_row id db)
unfolding delete_row is_rightful
delete_row-IsSound db id sound c g = ground (
  arith,
  sound c g,
  find-delete id c db.collections,
  has_item-drop_collection c g id db.items,
  ==_iff c id,
  ==_iff id c,
)

add_item-IsSound : (db : Db) (user id x : ℕ) → IsSound db → IsSound (add_item db user id x).1
unfolding add_item is_rightful get_owned owns_live has_item
add_item-IsSound db user id x sound c g = ground (
  arith,
  sound c g,
  same_owner-live user (find id db.collections) (find x db.cards),
  ==_iff id c,
  ==_iff x g,
)

remove_item-IsSound : (db : Db) (user id x : ℕ) → IsSound db → IsSound (remove_item db user id x).1
unfolding remove_item is_rightful
remove_item-IsSound db user id x sound c g =
    ground (arith, sound c g, has_item-drop_items c g id (x ∷ []) db.items)

bulk_add_items-IsSound :
    (db : Db) (user id : ℕ) (ids : List ℕ) → IsSound db → IsSound (bulk_add_items db user id ids).1
unfolding bulk_add_items is_rightful get_owned owns_live
bulk_add_items-IsSound db user id ids sound c g = ground (
  arith,
  sound c g,
  insert_new db user c g id ids,
  same_owner-live user (find id db.collections) (find g db.cards),
  ==_iff id c,
)

bulk_remove_items-IsSound :
    (db : Db) (user id : ℕ) (ids : List ℕ)
    → IsSound db
    → IsSound (bulk_remove_items db user id ids).1
unfolding bulk_remove_items is_rightful
bulk_remove_items-IsSound db user id ids sound c g =
    ground (arith, sound c g, drop_unique c g id ids db.items)

removed-IsSound : (n : ℕ) (r : Option ℕ × Db) → IsSound r.1 → IsSound (removed n r).1
removed-IsSound n (none, db) sound = sound
removed-IsSound n (some m, db) sound = sound

then_remove-IsSound :
    (user source : ℕ) (ids : List ℕ) (r : Option ℕ × Db)
    → IsSound r.1
    → IsSound (then_remove user source ids r).1
then_remove-IsSound user source ids (none, db) sound = sound
then_remove-IsSound user source ids (some n, db) sound =
    removed-IsSound n (bulk_remove_items db user source ids)
      (bulk_remove_items-IsSound db user source ids sound)

transfer_items-IsSound :
    (db : Db) (user target source : ℕ) (ids : List ℕ)
    → IsSound db
    → IsSound (transfer_items db user target source ids).1
unfolding transfer_items
transfer_items-IsSound db user target source ids sound =
    if_elim {A = Answer × Db} (λ r. IsSound r.1) (target == source) _ _ (λ _. sound)
      (λ _.
        then_remove-IsSound user source ids (bulk_add_items db user target ids)
          (bulk_add_items-IsSound db user target ids sound))

merged-IsSound :
    (db : Db) (user target source : ℕ)
    → (target == source) ≡ false
    → get_owned db user target ≡ true
    → get_owned db user source ≡ true
    → IsSound db
    → IsSound (merged db target source)
unfolding merged delete_row is_rightful get_owned
merged-IsSound db user target source other mine theirs sound c g = ground (
  arith,
  mine,
  theirs,
  has_item-merged db target source c g other,
  find-delete source c db.collections,
  same_owner-mine user (find target db.collections) (find source db.collections) (find g db.cards),
  sound c g,
  sound source g,
  ==_iff c source,
  ==_iff source c,
  ==_iff target c,
)

merge-IsSound :
    (db : Db) (user target source : ℕ) → IsSound db → IsSound (merge db user target source).1
unfolding merge merged
merge-IsSound db user target source sound =
    if_elim {A = Answer × Db} (λ r. IsSound r.1) (target == source) _ _ (λ _. sound)
      (λ other.
        if_elim {A = Answer × Db} (λ r. IsSound r.1)
          (get_owned db user target && get_owned db user source) _ _
          (λ both.
            merged-IsSound db user target source other (ground (arith, both)) (ground (arith, both))
              sound)
          (λ _. sound))

file_card-IsSound : (db : Db) (user x : ℕ) → IsSound db → IsSound (file_card db user x)
unfolding file_card is_rightful find
file_card-IsSound db user x sound c g = ground (arith, sound c g, ==_iff x g)

trash-IsSound :
    (db : Db) (x now : ℕ)
    → IsSound db
    → IsSound (record db { cards = change x (trash now) db.cards })
unfolding is_rightful trash
trash-IsSound db x now sound c g = ground (arith, sound c g, find-change x g (trash now) db.cards)

act-IsSound : (db : Db) (e : Event) → IsSound db → IsSound (act db e)
unfolding act delete_owned
act-IsSound db (creates user id passes p) sound = create-IsSound db user id passes p sound
act-IsSound db (updates user id passes p) sound = update-IsSound db user id passes p sound
act-IsSound db (deletes user id) sound =
    if_elim {A = Answer × Db} (λ r. IsSound r.1) (get_owned db user id) _ _
      (λ _. delete_row-IsSound db id sound) (λ _. sound)
act-IsSound db (adds user id g) sound = add_item-IsSound db user id g sound
act-IsSound db (removes user id g) sound = remove_item-IsSound db user id g sound
act-IsSound db (bulk_adds user id gs) sound = bulk_add_items-IsSound db user id gs sound
act-IsSound db (bulk_removes user id gs) sound = bulk_remove_items-IsSound db user id gs sound
act-IsSound db (transfers user target source gs) sound =
    transfer_items-IsSound db user target source gs sound
act-IsSound db (merges user target source) sound = merge-IsSound db user target source sound
act-IsSound db (files user g) sound = file_card-IsSound db user g sound
act-IsSound db (trashes g now) sound = trash-IsSound db g now sound

pub run-IsSound : (db : Db) (es : List Event) → IsSound db → IsSound (run db es)
unfolding run
run-IsSound db [] sound = sound
run-IsSound db (e ∷ es) sound = run-IsSound (act db e) es (act-IsSound db e sound)
