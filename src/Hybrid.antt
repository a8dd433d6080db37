-- ===== src/Hybrid.antt =====
-- code/ai-gateway/hybrid_contract.py: the checks of analysis messages that the smoke runs make.
pub mod Accepted
pub mod Producers
use diplom_code.Base.{
  ◌≡◌, refl, ℕ, zero, suc, ◌+◌, ◌-◌, ◌≤◌, ◌<◌, ℤ, pos, negsuc, String, Bool, true, false, not, ◌&&◌,
  ◌||◌, Option, none, some, List, [], ◌∷◌, ◌++◌, ◌==◌, string_eq, nat_eq, int_eq, ltb, leb, eqb,
  if◌then◌else◌, arith, ap, sym, ◌∙◌, subst, inl, inr, ◌⊎◌, Bool-cases, Option-cases, length, map,
  All, filter, is_nil, is_blank, is_empty, strip, ◌≢◌, ◌↔◌, ◌+ℤ◌, ◌-ℤ◌, ◌*ℤ◌, ◌≤ℤ◌, ◌<ℤ◌, ltb_ℤ,
  leb_ℤ, eqb_ℤ, min_ℤ, max_ℤ, pos_part, neg_part, sub_ℕ, ◌*◌, ◌/◌, ◌^◌, ◌<>◌, last_n, take, drop,
  any, all, get_elem?, sort_by, length-append, last_n-append, take_text, length_text,
}
use diplom_code.Base.Dict.{Dict, keys, lookup, lookup_or, insert, lookup-insert, lookup_or-insert}
use diplom_code.Py.{
  Runtime, IsDouble, null, bool, int, float, str, arr, obj, nil, cons, end, field, Value, Items,
  Fields, get, get_or, has, fields, items, number, truthy, or_else, text_of, is_filled, is_str,
  is_dict, is_list, is_bool, is_null, dict_or_empty, zero_f, one_f, min_f, max_f, set_field, update,
  opt_str, opt_float, opt_int, Result, ok, raise, ◌>>=◌, ◌>>◌, require,
}
use diplom_code.Contracts.{is_valid_face_behavior_v1}

module _ ⦃rt : Runtime⦄ where
  open rt use {repr}

  -- `type(v).__name__`
  abbrev type_name : Value → String
  type_name null = "NoneType"
  type_name (bool b) = "bool"
  type_name (int n) = "int"
  type_name (float x) = "float"
  type_name (str s) = "str"
  type_name (arr xs) = "list"
  type_name (obj fs) = "dict"

  -- `k in ("module", "version", "stage", "trace_id")`
  abbrev pub is_envelope_key : String → Bool
  is_envelope_key k = k == "module" || k == "version" || k == "stage" || k == "trace_id"

  req_key : Fields → String → String → Result (Unit {0})
  req_key fs k ctx = do
    require (has k fs) (ctx <> ": missing " <> repr (str k))
    require (not (is_envelope_key k) || is_filled (get k fs))
        (ctx <> ": invalid empty " <> repr (str k))

  req_all : Fields → List String → String → Result (Unit {0})
  req_all fs [] ctx = ok tt
  req_all fs (k ∷ ks) ctx = let rest = req_all fs ks ctx in req_key fs k ctx >> rest

  -- `_req_keys`
  unfoldable pub req_keys : Value → List String → String → Result Fields
  unfolding req_all req_key
  req_keys (obj fs) ks ctx = req_all fs ks ctx >> ok fs
  req_keys v ks ctx = raise (ctx <> ": expected object, got " <> type_name v)

  abbrev pub envelope_keys : List String
  envelope_keys = "module" ∷ "version" ∷ "stage" ∷ "trace_id" ∷ []

  unfoldable pub validate_face_analysis : Fields → Result (Unit {0})
  unfolding req_keys
  validate_face_analysis msg = do
    p ← req_keys (get "payload" msg) (envelope_keys ++ "face_features" ∷ []) "face_analysis.payload"
    require (is_dict (get "face_features" p)) "face_analysis.face_features must be object"
    require (is_null (get "face_behavior" p) || is_valid_face_behavior_v1 (get "face_behavior" p))
        "face_analysis.face_behavior is invalid for face_behavior.v1"

  unfoldable pub validate_audio_analysis : Fields → Result (Unit {0})
  unfolding req_keys
  validate_audio_analysis msg = do
    p ←
        req_keys (get "payload" msg) (envelope_keys ++ "audio_features" ∷ [])
          "audio_analysis.payload"
    require (is_dict (get "audio_features" p)) "audio_analysis.audio_features must be object"

  unfoldable pub validate_text_analysis : Fields → Result (Unit {0})
  unfolding req_keys
  validate_text_analysis msg = do
    p ← req_keys (get "payload" msg) envelope_keys "text_analysis.payload"
    ok tt

  -- `v == s` for a text `s`
  abbrev pub is_word : String → Value → Bool
  is_word s (str t) = t == s
  is_word s v = false

  abbrev pub report_keys : List String
  report_keys =
      envelope_keys
      ++ "report" ∷ "report_source" ∷ "model_version" ∷ "generated_at" ∷ "config_snapshot" ∷ []

  unfoldable pub validate_report_message : Fields → Bool → Result (Unit {0})
  unfolding req_keys
  validate_report_message msg expect_final = do
    let want_type = if expect_final then "analysis_report" else "analysis_report_partial"
    let typ = get "type" msg
    require (is_word want_type typ)
        ("report type: want " <> repr (str want_type) <> ", got " <> repr typ)
    p ← req_keys (get "payload" msg) report_keys (text_of typ <> ".payload")
    require (is_dict (get "report" p)) (text_of typ <> ": report must be object")
    require (is_word (if expect_final then "final" else "partial") (get "stage" p)) (
        text_of typ
        <> ": envelope stage must be "
        <> (if expect_final then "'final'" else "'partial'")
        <> ", got "
        <> repr (get "stage" p))
