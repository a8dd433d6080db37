-- ===== src/Report/Sanitize/Values.antt =====
-- code/ai-gateway/report_loop.py: single values of a remote report: texts, numbers cut to a range, and
-- dicts and lists of which the items of the wrong type are dropped. `json.loads` accepts NaN and
-- infinities, on which `int` raises.
use diplom_code.Base.{
  ℤ, pos, String, Option, none, some, string_eq, nat_eq, int_eq, if◌then◌else◌, is_blank, strip,
}
use diplom_code.Py.{
  Runtime, bool, int, float, str, obj, nil, cons, end, field, Value, Items, Fields, number, Result,
  ok, raise, ◌>>=◌,
}

module _ ⦃rt : Runtime⦄ where
  open rt use {F, lt, of_int, is_nan, is_finite, trunc, round_at}

  -- `_to_non_empty_str`
  unfoldable pub to_non_empty_str : Value → String → String
  to_non_empty_str (str s) default = if is_blank s then default else strip s
  to_non_empty_str _ default = default

  abbrev pub raise_to : Option F → F → F
  raise_to none x = x
  raise_to (some lo) x = if lt x lo then lo else x

  abbrev pub cut_to : Option F → F → F
  cut_to none x = x
  cut_to (some hi) x = if lt hi x then hi else x

  abbrev pub to_range : F → Option F → Option F → Option F → F
  to_range default lo hi none = default
  to_range default lo hi (some x) = round_at 3 (cut_to hi (raise_to lo x))

  -- `_to_float`
  unfoldable pub to_float : Value → F → Option F → Option F → F
  to_float v default lo hi = to_range default lo hi (number v)

  -- `int(x)`
  unfoldable pub int_of : F → Result ℤ
  int_of x =
      if is_finite x
      then ok (trunc x)
      else raise (if is_nan x then "ValueError" else "OverflowError")

  -- `int(v)` where `isinstance(v, (int, float))`
  unfoldable pub whole : Value → Option (Result ℤ)
  unfolding int_of
  whole (bool b) = some (ok (pos (if b then 1 else 0)))
  whole (int n) = some (ok n)
  whole (float x) = some (int_of x)
  whole _ = none

  abbrev pub put_whole : (ℤ → ℤ) → String → Option (Result ℤ) → Result Fields → Result Fields
  put_whole f k none rest = rest
  put_whole f k (some m) rest = do n ← m; more ← rest; ok (field k (int (f n)) more)

  -- A dict with the whole part of each number; other values are dropped.
  unfoldable pub whole_fields : (ℤ → ℤ) → Fields → Result Fields
  whole_fields f end = ok end
  whole_fields f (field k v fs) = put_whole f k (whole v) (whole_fields f fs)

  abbrev pub cons_some : Option Value → Items → Items
  cons_some none xs = xs
  cons_some (some v) xs = cons v xs

  abbrev pub put_item : Result (Option Value) → Result Items → Result Items
  put_item r rest = do o ← r; more ← rest; ok (cons_some o more)

  -- A list built from those items that are objects.
  unfoldable pub each_dict : (Fields → Result (Option Value)) → Items → Result Items
  each_dict f nil = ok nil
  each_dict f (cons (obj fs) xs) = put_item (f fs) (each_dict f xs)
  each_dict f (cons _ xs) = each_dict f xs

  abbrev always : (Fields → Result Value) → Fields → Result (Option Value)
  always f fs = do v ← f fs; ok (some v)
