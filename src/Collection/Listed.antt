-- ===== src/Collection/Listed.antt =====
-- Whose cards a collection lists (collection_service.py).
use loupe_backend.Prelude.{
  ℕ, ◌≡◌, refl, ap, ◌∙◌, inl, inr, Bool, true, false, ◌&&◌, ◌||◌, not, Option, none, some, List, [],
  ◌∷◌, arith, ◌==◌, is_some, ==_iff, Bool-cases,
}
use loupe_backend.Prelude.Tables.{find}
use loupe_backend.Collection.{
  Collection, Item, Card, Db, is_mine, get_owned, is_live, owns_live, has_item, member,
}
use loupe_backend.Collection.Calls.{listed, shown, list_items}
use loupe_backend.Collection.Session.{Event, run}
use loupe_backend.Collection.Sound.{same_owner, is_rightful, IsSound, run-IsSound}

abbrev pub empty : Db
empty = record { collections = []; items = []; cards = [] }

empty-IsSound : IsSound empty
unfolding has_item
empty-IsSound c g = refl

abbrev is_kept : Option Card → Bool
is_kept none = false
is_kept (some a) = not (is_some a.deleted_at)

member-listed :
    (o : Option Card) (x g : ℕ) (gs : List ℕ)
    → member g (listed o x gs) ≡ (member g gs || x == g && is_kept o)
unfolding member
member-listed none x g gs = ground arith
member-listed (some a) x g gs = ground arith

member-shown :
    (db : Db) (id g : ℕ) (is_ : List Item)
    → member g (shown db id is_) ≡ (has_item id g is_ && is_kept (find g db.cards))
unfolding member shown has_item
member-shown db id g [] = refl
member-shown db id g (i ∷ is_) = ground (
  arith,
  member-shown db id g is_,
  member-listed (find i.graded_card_id db.cards) i.graded_card_id g (shown db id is_),
  ==_iff i.collection_id id,
  ==_iff i.graded_card_id g,
)

is_kept-same_owner :
    (user : ℕ) (o : Option Collection) (a : Option Card)
    → is_mine user o ≡ true
    → same_owner o a ≡ true
    → is_kept a ≡ is_live user a
is_kept-same_owner user (some c) (some a) mine same =
    ground
      (arith, mine, same, ==_iff c.user_id user, ==_iff a.user_id c.user_id, ==_iff a.user_id user)
is_kept-same_owner user (some c) none mine same = refl
is_kept-same_owner user none a mine same = ground (arith, mine)

list_items-some :
    (db : Db) (user id : ℕ) (gs : List ℕ)
    → list_items db user id ≡ some gs
    → get_owned db user id ≡ true × gs ≡ shown db id db.items
unfolding list_items
list_items-some db user id gs e = ground (arith, e)

shown-owns_live :
    (db : Db) (user id g : ℕ)
    → IsSound db
    → get_owned db user id ≡ true
    → (has_item id g db.items && is_kept (find g db.cards))
      ≡ (has_item id g db.items && owns_live db user g)
unfolding is_rightful get_owned owns_live
shown-owns_live db user id g sound mine = elim (Bool-cases (has_item id g db.items)) [
  | inl there ↦
      (let rightful : same_owner (find id db.collections) (find g db.cards) ≡ true =
          ground (arith, there, sound id g) in
        ground (
          arith,
          there,
          is_kept-same_owner user (find id db.collections) (find g db.cards) mine rightful,
        ))
  | inr gone ↦ ground (arith, gone)
]

-- Collections show nobody else's cards: whatever calls any users have made, in any order, the cards that a user gets
-- to see in a collection are those of its items that are the user's own and not deleted, all of them.
pub run-list_items :
    (es : List Event) (user id g : ℕ) (gs : List ℕ)
    → list_items (run empty es) user id ≡ some gs
    → member g gs ≡ (has_item id g (run empty es).items && owns_live (run empty es) user g)
run-list_items es user id g gs e =
    let db = run empty es in
    let (mine, same) = list_items-some db user id gs e in
    ap (member g) same
    ∙ member-shown db id g db.items
    ∙ shown-owns_live db user id g (run-IsSound empty es empty-IsSound) mine
