-- ===== src/Market/Json.antt =====
-- JSON documents as Python reads them from a column. A number is a count of ten-thousandths; no
-- negative number is modelled.
use loupe_backend.Prelude.{ℕ, suc, Bool, true, false, ◌&&◌, Option, none, some, ◌==◌, if◌then◌else◌}
use loupe_backend.Prelude.Text.{Text, text_eq}

mutual
  pub data Json : Type 0 where
    null : Json
    boolean : Bool → Json
    number : ℕ → Json
    text : Text → Json
    array : Items → Json
    object : Fields → Json

  pub data Items : Type 0 where
    no_items : Items
    item : Json → Items → Items

  pub data Fields : Type 0 where
    no_fields : Fields
    field : Text → Json → Fields → Fields

-- `d.get(key)`, with no answer for a missing key.
unfoldable pub get_field : Text → Fields → Option Json
unfolding text_eq
get_field k no_fields = none
get_field k (field j v fs) = if text_eq j k then some v else get_field k fs

-- `d.get(key, default)`
abbrev pub or_else : Json → Option Json → Json
or_else default none = default
or_else default (some v) = v

-- `a[-1]`
unfoldable pub last_item : Items → Option Json
last_item no_items = none
last_item (item v no_items) = some v
last_item (item v (item w vs)) = last_item (item w vs)

-- `Decimal(str(v))`, where `parse` reads a text; the other values are no numbers.
abbrev pub decimal : (Text → Option ℕ) → Json → Option ℕ
decimal parse (number n) = some n
decimal parse (text t) = parse t
decimal parse _ = none

unfoldable pub count_fields : Fields → ℕ
count_fields no_fields = 0
count_fields (field k v fs) = suc (count_fields fs)

-- A Boolean is 0 or 1 when it is compared with a number.
abbrev pub as_number : Bool → ℕ
as_number b = if b then 10000 else 0

-- `==` on documents: objects are equal in any order of their keys, which are distinct.
unfoldable mutual
  pub same_json : Json → Json → Bool
  same_json null null = true
  same_json (boolean a) (boolean b) = as_number a == as_number b
  same_json (boolean a) (number n) = as_number a == n
  same_json (number n) (boolean b) = n == as_number b
  same_json (number n) (number m) = n == m
  same_json (text s) (text t) = text_eq s t
  same_json (array vs) (array ws) = same_items vs ws
  same_json (object fs) (object gs) = count_fields fs == count_fields gs && has_all fs gs
  same_json _ _ = false

  pub same_items : Items → Items → Bool
  same_items no_items no_items = true
  same_items (item v vs) (item w ws) = same_json v w && same_items vs ws
  same_items _ _ = false

  pub has_all : Fields → Fields → Bool
  has_all no_fields gs = true
  has_all (field k v fs) gs =
      elim (get_field k gs) [ none ↦ false | some w ↦ same_json v w ] && has_all fs gs
