-- ===== src/Report/Orchestrator.antt =====
-- code/ai-gateway/modules/report/orchestrator.py: the report messages, and whether a remote report
-- says anything.
use diplom_code.Base.{
  ℤ, pos, String, Bool, false, not, ◌&&◌, ◌||◌, [], ◌∷◌, ◌==◌, string_eq, nat_eq, int_eq,
  if◌then◌else◌, is_blank, strip, ltb_ℤ,
}
use diplom_code.Py.{
  Runtime, bool, int, str, arr, obj, nil, cons, end, field, Value, Items, Fields, get, fields,
  is_filled, items_nil, join_fields,
}
use diplom_code.Contracts.{analysis_envelope}

module _ ⦃rt : Runtime⦄ where
  open rt use {lower}

  -- `isinstance(v, int) and v > 0`: a bool is an int.
  abbrev positive_int : Value → Bool
  positive_int (bool b) = b
  positive_int (int n) = ltb_ℤ (pos 0) n
  positive_int _ = false

  abbrev any_field : (Value → Bool) → Fields → Bool
  any_field p end = false
  any_field p (field k v fs) = p v || any_field p fs

  abbrev any_item : (Value → Bool) → Items → Bool
  any_item p nil = false
  any_item p (cons x xs) = p x || any_item p xs

  abbrev full_list : Value → Bool
  full_list (arr xs) = not (items_nil xs)
  full_list _ = false

  substantial_summary : Value → Bool
  substantial_summary (str s) = not (is_blank s) && not (lower (strip s) == "report generated")
  substantial_summary _ = false

  abbrev substantial_participant : Value → Bool
  substantial_participant (obj p) =
      positive_int (get "audio_chunks" p) || is_filled (get "last_transcript" p)
  substantial_participant _ = false

  abbrev in_list : (Value → Bool) → Value → Bool
  in_list p (arr xs) = any_item p xs
  in_list p _ = false

  abbrev in_dict : (Value → Bool) → Value → Bool
  in_dict p (obj fs) = any_field p fs
  in_dict p _ = false

  substantial_fusion : Value → Bool
  substantial_fusion (obj f) =
      full_list (get "buckets" f) || in_dict full_list (get "trace_ids_by_participant" f)
  substantial_fusion _ = false

  -- `_is_report_substantial`
  unfoldable pub is_report_substantial : Fields → Bool
  unfolding substantial_summary substantial_fusion
  is_report_substantial report =
      substantial_summary (get "summary" report)
      || in_dict positive_int (get "feature_counts" report)
      || in_list substantial_participant (get "participants" report)
      || substantial_fusion (get "fusion" report)

  -- The message type and the stage of the partial and the final report.
  abbrev pub report_type : Bool → String
  report_type final = if final then "analysis_report" else "analysis_report_partial"

  abbrev pub report_stage : Bool → String
  report_stage final = if final then "final" else "partial"

  -- `now` is the time of the call in ISO format.
  unfoldable pub build_report_ws_message :
      String → ℤ → Fields → String → String → String → String → String → Value → Fields
  unfolding analysis_envelope
  build_report_ws_message now session_id report_body report_source model_ver trace_id msg_type stage
        config =
      fields (
        ("type", str msg_type)
        ∷ ("session_id", int session_id)
        ∷ ("participant_id", str "")
        ∷ (
          "payload",
          obj (
              join_fields (analysis_envelope "report" model_ver stage trace_id end) (
                fields (
                  ("report", obj report_body)
                  ∷ ("report_source", str report_source)
                  ∷ ("model_version", str model_ver)
                  ∷ ("generated_at", str now)
                  ∷ ("config_snapshot", config)
                  ∷ []))),
        )
        ∷ ("timestamp", str now)
        ∷ [])
