-- ===== src/Report/Quality.antt =====
-- code/ai-gateway/modules/report/data_quality.py: what went wrong since the last report.
pub mod Laws
use diplom_code.Base.{
  ◌≡◌, refl, ℕ, zero, suc, ◌+◌, ◌-◌, ◌≤◌, ◌<◌, ℤ, pos, negsuc, String, Bool, true, false, not, ◌&&◌,
  ◌||◌, Option, none, some, List, [], ◌∷◌, ◌++◌, ◌==◌, string_eq, nat_eq, int_eq, ltb, leb, eqb,
  if◌then◌else◌, arith, ap, sym, ◌∙◌, subst, inl, inr, ◌⊎◌, Bool-cases, Option-cases, length, map,
  All, filter, is_nil, is_blank, is_empty, strip, ◌≢◌, ◌↔◌, ◌+ℤ◌, ◌-ℤ◌, ◌*ℤ◌, ◌≤ℤ◌, ◌<ℤ◌, ltb_ℤ,
  leb_ℤ, eqb_ℤ, min_ℤ, max_ℤ, pos_part, neg_part, sub_ℕ, ◌*◌, ◌/◌, ◌^◌, ◌<>◌, last_n, take, drop,
  any, all, get_elem?, sort_by, length-append, last_n-append, take_text, length_text, text_leb,
  set_of,
}
use diplom_code.Base.Dict.{Dict, keys, lookup, lookup_or, insert, lookup-insert, lookup_or-insert}
use diplom_code.Py.{
  Runtime, IsDouble, null, bool, int, float, str, arr, obj, nil, cons, end, field, Value, Items,
  Fields, get, get_or, has, fields, items, number, truthy, or_else, text_of, is_filled, is_str,
  is_dict, is_list, is_bool, is_null, dict_or_empty, zero_f, one_f, min_f, max_f, set_field, update,
  opt_str, opt_float, opt_int, Result, ok, raise, ◌>>=◌, ◌>>◌, require,
}
use diplom_code.Metrics.{Counters}

module _ ⦃rt : Runtime⦄ where
  -- `sorted(set(xs))`
  unfoldable pub sorted_set : List String → List String
  unfolding sort_by text_leb
  sorted_set xs = sort_by text_leb (set_of [] xs)

  -- `delta`
  unfoldable pub delta : Counters → Counters → String → ℤ
  delta curr prev key = max_ℤ (pos 0) (lookup_or key (pos 0) curr -ℤ lookup_or key (pos 0) prev)

  abbrev positive : ℤ → Bool
  positive n = ltb_ℤ (pos 0) n

  abbrev note_if : Bool → String → List String → List String
  note_if b note rest = if b then note ∷ rest else rest

  -- the names appended to `degraded`, in the order of the code
  unfoldable pub degraded : (String → ℤ) → List String
  degraded d = note_if (positive (d "text_analysis_errors")) "text_asr" (
      note_if (positive (d "speech_service_circuit_open")) "text_asr"
        (note_if (positive (d "face_inference_errors")) "face_inference" []))

  unfoldable pub notes : (String → ℤ) → List String
  notes d = note_if (positive (d "text_analysis_errors")) "text_analysis_errors_since_last_report" (
      note_if (positive (d "speech_service_circuit_open"))
        "speech_service_circuit_open_since_last_report"
        (note_if (positive (d "face_inference_errors")) "face_inference_errors_since_last_report" (
          note_if (positive (d "audio_features_degraded"))
            "audio_features_degraded_since_last_report"
            (note_if (positive (d "report_partial_errors") || positive (d "report_final_errors"))
              "report_emit_errors_since_last_report" []))))

  abbrev pub window_keys : List String
  window_keys =
      "text_analysis_errors" ∷ "speech_service_circuit_open" ∷ "face_inference_errors"
      ∷ "audio_features_degraded" ∷ "report_partial_errors" ∷ "report_final_errors" ∷ []

  abbrev texts : List String → Items
  texts [] = nil
  texts (s ∷ ss) = cons (str s) (texts ss)

  abbrev window : (String → ℤ) → List String → Fields
  window d [] = end
  window d (k ∷ ks) = field k (int (d k)) (window d ks)

  unfoldable pub data_quality : (String → ℤ) → Value
  data_quality d = obj (
      fields (
        ("complete", bool (is_empty (degraded d)))
        ∷ ("degraded_sources", arr (texts (sorted_set (degraded d))))
        ∷ ("notes", arr (texts (notes d)))
        ∷ ("counters_window", obj (window d window_keys))
        ∷ []))

  -- `counters_prev if counters_prev is not None else counters_curr`
  abbrev pub previous : Counters → Option Counters → Counters
  previous curr none = curr
  previous curr (some prev) = prev

  unfoldable pub augment_report_data_quality : Fields → Counters → Option Counters → Fields
  augment_report_data_quality report_body curr counters_prev =
      set_field "data_quality" (data_quality (delta curr (previous curr counters_prev))) report_body
