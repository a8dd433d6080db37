-- ===== src/Py/Access.antt =====
-- Reading Python's values: `isinstance`, `bool`, `str`, `d.get`, and the dict and list literals.
use diplom_code.Base.{
  ℕ, suc, String, ℤ, pos, Bool, true, false, not, ◌||◌, ◌&&◌, Option, none, some, List, [], ◌∷◌,
  ◌==◌, string_eq, eqb_ℤ, is_nil, is_blank, if◌then◌else◌,
}
use diplom_code.Py.Data.{
  ValueOf, null, bool, int, float, str, arr, obj, ItemsOf, nil, cons, FieldsOf, end, field, Runtime,
}
use diplom_code.Py.Raise.{Result, ok, raise}

module _ ⦃rt : Runtime⦄ where
  open rt use {F, of_int, is_zero, repr}

  abbrev pub Value : Type 0
  Value = ValueOf F

  abbrev pub Items : Type 0
  Items = ItemsOf F

  abbrev pub Fields : Type 0
  Fields = FieldsOf F

  -- `isinstance(v, str)` and so on; a bool is an instance of `int`.
  abbrev pub is_str : Value → Bool
  is_str (str s) = true
  is_str _ = false

  abbrev pub is_dict : Value → Bool
  is_dict (obj fs) = true
  is_dict _ = false

  abbrev pub is_list : Value → Bool
  is_list (arr xs) = true
  is_list _ = false

  abbrev pub is_bool : Value → Bool
  is_bool (bool b) = true
  is_bool _ = false

  abbrev pub is_null : Value → Bool
  is_null null = true
  is_null _ = false

  -- `float(v)` where `isinstance(v, (int, float))`
  abbrev pub number : Value → Option F
  number (bool true) = some (of_int (pos 1))
  number (bool false) = some (of_int (pos 0))
  number (int n) = some (of_int n)
  number (float x) = some x
  number _ = none

  abbrev pub items_nil : Items → Bool
  items_nil nil = true
  items_nil (cons x xs) = false

  abbrev pub fields_end : Fields → Bool
  fields_end end = true
  fields_end (field k v fs) = false

  -- `bool(v)`
  abbrev pub truthy : Value → Bool
  truthy null = false
  truthy (bool b) = b
  truthy (int n) = not (eqb_ℤ n (pos 0))
  truthy (float x) = not (is_zero x)
  truthy (str s) = not (is_nil s)
  truthy (arr xs) = not (items_nil xs)
  truthy (obj fs) = not (fields_end fs)

  -- `a or b`
  abbrev pub or_else : Value → Value → Value
  or_else a b = if truthy a then a else b

  -- `str(v)`
  abbrev pub text_of : Value → String
  text_of (str s) = s
  text_of v = repr v

  -- `isinstance(v, str) and v.strip()`
  abbrev pub is_filled : Value → Bool
  is_filled (str s) = not (is_blank s)
  is_filled _ = false

  -- `d.get(k, v)`
  abbrev pub get_or : String → Value → Fields → Value
  get_or k v end = v
  get_or k v (field j w fs) = if j == k then w else get_or k v fs

  -- `d.get(k)`
  abbrev pub get : String → Fields → Value
  get k fs = get_or k null fs

  -- `k in d`
  abbrev pub has : String → Fields → Bool
  has k end = false
  has k (field j w fs) = j == k || has k fs

  -- `d[k] = v`
  abbrev pub set_field : String → Value → Fields → Fields
  set_field k v end = field k v end
  set_field k v (field j w fs) = if j == k then field j v fs else field j w (set_field k v fs)

  -- `v if isinstance(v, dict) else {}`
  abbrev pub dict_or_empty : Value → Fields
  dict_or_empty (obj fs) = fs
  dict_or_empty _ = end

  -- `{k: v, ...}`, the keys different from one another
  abbrev pub fields : List (String × Value) → Fields
  fields [] = end
  fields ((k, v) ∷ kvs) = field k v (fields kvs)

  -- `{**d, **e}` where no key of `d` is one of `e`
  abbrev pub join_fields : Fields → Fields → Fields
  join_fields end gs = gs
  join_fields (field k v fs) gs = field k v (join_fields fs gs)

  -- `d.update(e)`
  abbrev pub update : Fields → Fields → Fields
  update fs end = fs
  update fs (field k v gs) = update (set_field k v fs) gs

  abbrev pub items : List Value → Items
  items [] = nil
  items (x ∷ xs) = cons x (items xs)

  abbrev pub all_items : (Value → Bool) → Items → Bool
  all_items p nil = true
  all_items p (cons x xs) = p x && all_items p xs

  abbrev pub length_items : Items → ℕ
  length_items nil = 0
  length_items (cons x xs) = suc (length_items xs)

  abbrev pub all_fields : (String → Value → Bool) → Fields → Bool
  all_fields p end = true
  all_fields p (field k v fs) = p k v && all_fields p fs

  -- a text or None
  abbrev pub opt_str : Option String → Value
  opt_str none = null
  opt_str (some s) = str s

  abbrev pub opt_float : Option F → Value
  opt_float none = null
  opt_float (some x) = float x

  abbrev pub opt_int : Option ℤ → Value
  opt_int none = null
  opt_int (some n) = int n

-- `x` or `y`, the smaller or the larger as Python's `min(x, y)` and `max(x, y)` choose: the first
-- argument, unless the second is strictly better.
module _ ⦃rt : Runtime⦄ where
  open rt use {F, lit, lt, is_finite, is_nan, trunc}

  abbrev pub min_f : F → F → F
  min_f x y = if lt y x then y else x

  abbrev pub max_f : F → F → F
  max_f x y = if lt x y then y else x

  abbrev pub zero_f : F
  zero_f = lit 0 1

  abbrev pub one_f : F
  one_f = lit 10 1

  -- `int(x)` of a float
  abbrev pub whole : F → Result ℤ
  whole x =
      if is_finite x
      then ok (trunc x)
      else raise (if is_nan x then "ValueError" else "OverflowError")
