-- ===== src/Tax/Json.antt =====
-- The JSON values that a rule is stored as, and Python's `==` on them. A number is an integer.
use film_bill.Base.{
  ◌+◌, Bool, true, false, ◌&&◌, Option, none, some, List, [], ◌∷◌, nat_eq, text_eq,
  text_has_equality, lookup,
}
use film_bill.Base.Int.{ℤ, pos, pos_part, neg_part}
use film_bill.Base.Text.{Text}

mutual
  pub data Json : Type 0 where
    null : Json
    boolean : Bool → Json
    number : ℤ → Json
    text : Text → Json
    array : Items → Json
    object : Fields → Json

  pub data Items : Type 0 where
    no_items : Items
    item : Json → Items → Items

  pub data Fields : Type 0 where
    no_fields : Fields
    field : Text → Json → Fields → Fields

abbrev pub entries : Fields → List (Text × Json)
entries no_fields = []
entries (field k v fs) = (k, v) ∷ entries fs

abbrev pub bool_eq : Bool → Bool → Bool
bool_eq true true = true
bool_eq false false = true
bool_eq _ _ = false

abbrev pub int_eq : ℤ → ℤ → Bool
int_eq m n = nat_eq (pos_part m + neg_part n) (pos_part n + neg_part m)

-- `int(b)`
abbrev pub bool_int : Bool → ℤ
bool_int true = pos 1
bool_int false = pos 0

-- `a == b` for a scalar `a`: `True == 1` and `False == 0`.
unfoldable pub scalar_equal : Json → Json → Bool
scalar_equal null null = true
scalar_equal (boolean a) (boolean b) = bool_eq a b
scalar_equal (boolean a) (number n) = int_eq (bool_int a) n
scalar_equal (number m) (boolean b) = int_eq m (bool_int b)
scalar_equal (number m) (number n) = int_eq m n
scalar_equal (text s) (text t) = text_eq s t
scalar_equal _ _ = false

-- `actual is expected` for a Boolean `expected`.
abbrev pub is_same : Json → Bool → Bool
is_same (boolean a) b = bool_eq a b
is_same _ b = false

abbrev pub same_number : Fields → Fields → Bool
same_number no_fields no_fields = true
same_number (field j v fs) (field k w gs) = same_number fs gs
same_number _ _ = false

abbrev pub holds_entry : (Json → Bool) → Option Json → Bool
holds_entry p none = false
holds_entry p (some w) = p w

-- `a == b` for all values: a dictionary is compared without its order.
unfoldable mutual
  unfolding scalar_equal

  pub json_equal : Json → Json → Bool
  json_equal (array xs) (array ys) = items_equal xs ys
  json_equal (object fs) (object gs) = same_number fs gs && fields_in fs (entries gs)
  json_equal a b = scalar_equal a b

  pub items_equal : Items → Items → Bool
  items_equal no_items no_items = true
  items_equal (item x xs) (item y ys) = json_equal x y && items_equal xs ys
  items_equal _ _ = false

  pub fields_in : Fields → List (Text × Json) → Bool
  fields_in no_fields gs = true
  fields_in (field k v fs) gs = holds_entry (json_equal v) (lookup k gs) && fields_in fs gs
