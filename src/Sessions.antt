-- ===== src/Sessions.antt =====
-- code/ai-gateway/modules/shared/session_modules.py: which analysis modules a session has enabled.
pub mod Laws
use diplom_code.Base.{
  ◌≡◌, refl, ℕ, zero, suc, ◌+◌, ◌-◌, ◌≤◌, ◌<◌, ℤ, pos, negsuc, String, Bool, true, false, not, ◌&&◌,
  ◌||◌, Option, none, some, List, [], ◌∷◌, ◌++◌, ◌==◌, string_eq, nat_eq, int_eq, ltb, leb, eqb,
  if◌then◌else◌, arith, ap, sym, ◌∙◌, subst, inl, inr, ◌⊎◌, Bool-cases, Option-cases, length, map,
  All, filter, is_nil, is_blank, is_empty, strip, ◌≢◌, ◌↔◌,
}
use diplom_code.Base.Dict.{Dict, keys, lookup, lookup_or, insert, lookup-insert, lookup_or-insert}
use diplom_code.Py.{
  Runtime, IsDouble, null, bool, int, float, str, arr, obj, nil, cons, end, field, Value, Items,
  Fields, get, get_or, has, fields, items, number, truthy, or_else, text_of, is_filled, is_str,
  is_dict, is_list, is_bool, is_null, dict_or_empty, zero_f, one_f, min_f, max_f, set_field, update,
  opt_str, opt_float, opt_int, Result, ok, raise, ◌>>=◌, ◌>>◌, require,
}

module _ ⦃rt : Runtime⦄ where
  open rt use {F, lower}

  -- `_session_modules`
  abbrev pub Sessions : Type 0
  Sessions = Dict ℤ (Dict String Bool)

  -- `k.strip().lower()`
  abbrev pub module_key : String → String
  module_key name = lower (strip name)

  unfoldable pub normalize_into : Dict String Bool → Fields → Dict String Bool
  normalize_into acc end = acc
  normalize_into acc (field k v fs) = normalize_into (insert (module_key k) (truthy v) acc) fs

  unfoldable pub set_session_modules : ℤ → Fields → Sessions → Sessions
  set_session_modules session_id modules s = insert session_id (normalize_into [] modules) s

  unfoldable pub enabled_in : Option (Dict String Bool) → String → Bool → Bool
  enabled_in none key default = default
  enabled_in (some m) key default = lookup_or key default m

  unfoldable pub is_module_enabled_for_session : Option ℤ → String → Bool → Sessions → Bool
  unfolding enabled_in
  is_module_enabled_for_session none name default s = default
  is_module_enabled_for_session (some sid) name default s =
      enabled_in (lookup sid s) (module_key name) default
