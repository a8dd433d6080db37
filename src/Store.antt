-- ===== src/Store.antt =====
-- code/ai-gateway/feature_store.py: the bounded buffer of recent features of each session. Each
-- method runs under the lock, so a run of the store is a sequence of calls.
pub mod History
use diplom_code.Base.{
  ◌≡◌, refl, ℕ, zero, suc, ◌+◌, ◌-◌, ◌≤◌, ◌<◌, ℤ, pos, negsuc, String, Bool, true, false, not, ◌&&◌,
  ◌||◌, Option, none, some, List, [], ◌∷◌, ◌++◌, ◌==◌, string_eq, nat_eq, int_eq, ltb, leb, eqb,
  if◌then◌else◌, arith, ap, sym, ◌∙◌, subst, inl, inr, ◌⊎◌, Bool-cases, Option-cases, length, map,
  All, filter, is_nil, is_blank, is_empty, strip, ◌≢◌, ◌↔◌, last_n, sort_by, leb_ℤ, ◌*◌,
}
use diplom_code.Base.Dict.{Dict, keys, lookup, lookup_or, insert, lookup-insert, lookup_or-insert}
use diplom_code.Py.{
  Runtime, IsDouble, null, bool, int, float, str, arr, obj, nil, cons, end, field, Value, Items,
  Fields, get, get_or, has, fields, items, number, truthy, or_else, text_of, is_filled, is_str,
  is_dict, is_list, is_bool, is_null, dict_or_empty, zero_f, one_f, min_f, max_f, set_field, update,
  opt_str, opt_float, opt_int, Result, ok, raise, ◌>>=◌, ◌>>◌, require,
}

module _ ⦃rt : Runtime⦄ where
  open rt use {F}

  -- The arguments of a call of `push`, with the time at which it runs.
  pub record Push : Type 0 where
    pub session_id : ℤ
    pub ts : F
    pub kind : String
    pub participant_id : Option String
    pub trace_id : Option String
    pub content : Fields

  -- `_by_session`
  abbrev pub Store : Type 0
  Store = Dict ℤ (List Fields)

  -- `rec`
  unfoldable pub record_of : Push → Fields
  record_of p = fields (
      ("ts", float p.ts)
      ∷ ("kind", str p.kind)
      ∷ ("participant_id", opt_str p.participant_id)
      ∷ ("trace_id", opt_str p.trace_id)
      ∷ ("data", obj p.content)
      ∷ [])

  abbrev pub max_per_session : ℕ
  max_per_session = 512

  abbrev pub max_per_kind : ℕ
  max_per_kind = 64

  unfoldable pub push : Push → Store → Store
  push p s =
      insert p.session_id (last_n max_per_session (lookup_or p.session_id [] s ++ record_of p ∷ []))
        s

  unfoldable pub snapshot_session : ℤ → Store → List Fields
  snapshot_session sid s = last_n (max_per_kind * 8) (lookup_or sid [] s)

  unfoldable pub session_ids : Store → List ℤ
  session_ids s = sort_by leb_ℤ (keys s)
