-- ===== src/Collection/Calls.antt =====
-- The calls of collection_service.py. Each gives its answer and the database after it, which an error in
-- the middle of a transfer leaves changed.
use loupe_backend.Prelude.{
  ℕ, ◌+◌, Bool, true, ◌&&◌, not, Option, none, some, List, [], ◌∷◌, ◌==◌, if◌then◌else◌, is_some,
  length,
}
use loupe_backend.Prelude.Text.{Text}
use loupe_backend.Prelude.Tables.{find, change}
use loupe_backend.Collection.{
  Collection, Item, Card, Db, CollectionCreate, CollectionUpdate, Answer, done, bad_request,
  refused, not_found, integrity_error, counted, get_owned, owns_live, has_item, member, drop_items,
  delete_row,
}

-- `create`, on the id of the new row and the verdict of `_screen`.
unfoldable pub create : Db → ℕ → ℕ → Bool → CollectionCreate → Answer × Db
unfolding find
create db user id passes p =
    if passes
    then if is_some (find id db.collections) then (integrity_error, db) else (
      done,
      record db {
        collections =
            (
              id,
              record {
                user_id = user;
                name = p.name;
                description = p.description;
                color = p.color;
                is_public = p.is_public;
              },
            )
            ∷ db.collections;
      },
    )
    else (refused, db)

abbrev pub or_text : Option Text → Text → Text
or_text none t = t
or_text (some s) t = s

abbrev pub or_option : Option Text → Option Text → Option Text
or_option none o = o
or_option (some s) o = some s

abbrev pub or_bool : Option Bool → Bool → Bool
or_bool none b = b
or_bool (some a) b = a

unfoldable pub updated : CollectionUpdate → Collection → Collection
updated p c = record c {
  name = or_text p.name c.name;
  description = or_option p.description c.description;
  color = or_option p.color c.color;
  is_public = or_bool p.is_public c.is_public;
}

unfoldable pub update : Db → ℕ → ℕ → Bool → CollectionUpdate → Answer × Db
unfolding get_owned change updated
update db user id passes p =
    if get_owned db user id
    then if passes
      then (done, record db { collections = change id (updated p) db.collections })
      else (refused, db)
    else (not_found, db)

-- `delete`
unfoldable pub delete_owned : Db → ℕ → ℕ → Answer × Db
unfolding get_owned delete_row
delete_owned db user id = if get_owned db user id then (done, delete_row id db) else (not_found, db)

abbrev pub new_item : ℕ → ℕ → Item
new_item c g = record { collection_id = c; graded_card_id = g }

unfoldable pub add_item : Db → ℕ → ℕ → ℕ → Answer × Db
unfolding get_owned owns_live has_item
add_item db user id g =
    if get_owned db user id && owns_live db user g
    then if has_item id g db.items
      then (done, db)
      else (done, record db { items = new_item id g ∷ db.items })
    else (not_found, db)

unfoldable pub remove_item : Db → ℕ → ℕ → ℕ → Answer × Db
unfolding get_owned has_item drop_items
remove_item db user id g =
    if get_owned db user id && has_item id g db.items
    then (done, record db { items = drop_items id (g ∷ []) db.items })
    else (not_found, db)

-- `list(dict.fromkeys(ids))`, with the ids that were seen before.
unfoldable pub unique : List ℕ → List ℕ → List ℕ
unfolding member
unique seen [] = []
unique seen (x ∷ xs) = let rest = unique (x ∷ seen) xs in if member x seen then rest else x ∷ rest

-- The ids that are the user's live cards and not in the collection.
unfoldable pub to_add : Db → ℕ → ℕ → List ℕ → List ℕ
unfolding owns_live has_item
to_add db user id [] = []
to_add db user id (g ∷ gs) =
    let rest = to_add db user id gs in
    if owns_live db user g && not (has_item id g db.items) then g ∷ rest else rest

unfoldable pub insert_items : ℕ → List ℕ → List Item → List Item
insert_items id [] is_ = is_
insert_items id (g ∷ gs) is_ = new_item id g ∷ insert_items id gs is_

unfoldable pub bulk_add_items : Db → ℕ → ℕ → List ℕ → Option ℕ × Db
unfolding get_owned to_add unique insert_items
bulk_add_items db user id ids =
    let gs = to_add db user id (unique [] ids) in
    if get_owned db user id
    then (some (length gs), record db { items = insert_items id gs db.items })
    else (none, db)

unfoldable pub count_rows : ℕ → List ℕ → List Item → ℕ
unfolding member
count_rows c ids [] = 0
count_rows c ids (i ∷ is_) =
    (if i.collection_id == c && member i.graded_card_id ids then 1 else 0) + count_rows c ids is_

unfoldable pub bulk_remove_items : Db → ℕ → ℕ → List ℕ → Option ℕ × Db
unfolding get_owned drop_items count_rows unique
bulk_remove_items db user id ids =
    let gs = unique [] ids in
    if get_owned db user id
    then (some (count_rows id gs db.items), record db { items = drop_items id gs db.items })
    else (none, db)

abbrev pub removed : ℕ → Option ℕ × Db → Answer × Db
removed added (none, db) = (not_found, db)
removed added (some n, db) = (counted added n, db)

abbrev pub then_remove : ℕ → ℕ → List ℕ → Option ℕ × Db → Answer × Db
then_remove user source ids (none, db) = (not_found, db)
then_remove user source ids (some n, db) = removed n (bulk_remove_items db user source ids)

unfoldable pub transfer_items : Db → ℕ → ℕ → ℕ → List ℕ → Answer × Db
unfolding bulk_add_items bulk_remove_items
transfer_items db user target source ids =
    if target == source
    then (bad_request, db)
    else then_remove user source ids (bulk_add_items db user target ids)

-- The loop of `merge` over the source's items, on the items that the target had before it.
unfoldable pub move_items : ℕ → ℕ → List Item → List Item → List Item
unfolding has_item
move_items target source before [] = []
move_items target source before (i ∷ is_) =
    let rest = move_items target source before is_ in
    if i.collection_id == source
    then if has_item target i.graded_card_id before
      then rest
      else new_item target i.graded_card_id ∷ rest
    else i ∷ rest

unfoldable pub merge : Db → ℕ → ℕ → ℕ → Answer × Db
unfolding get_owned move_items delete_row
merge db user target source =
    if target == source
    then (bad_request, db)
    else if get_owned db user target && get_owned db user source
    then (
      done,
      delete_row source (record db { items = move_items target source db.items db.items }),
    )
    else (not_found, db)

-- The cards of a collection's items, apart from deleted ones; their order is not modelled.
abbrev pub listed : Option Card → ℕ → List ℕ → List ℕ
listed none g gs = gs
listed (some a) g gs = if is_some a.deleted_at then gs else g ∷ gs

unfoldable pub shown : Db → ℕ → List Item → List ℕ
unfolding find
shown db id [] = []
shown db id (i ∷ is_) =
    let rest = shown db id is_ in
    if i.collection_id == id
    then listed (find i.graded_card_id db.cards) i.graded_card_id rest
    else rest

unfoldable pub list_items : Db → ℕ → ℕ → Option (List ℕ)
unfolding get_owned shown
list_items db user id = if get_owned db user id then some (shown db id db.items) else none

-- Whether `holdings_scope` lets a card through; none is the view of all cards.
abbrev pub in_scope : Db → ℕ → Option ℕ → ℕ → Bool
in_scope db user none g = true
in_scope db user (some id) g = get_owned db user id && has_item id g db.items
