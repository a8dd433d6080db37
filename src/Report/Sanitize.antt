-- ===== src/Report/Sanitize.antt =====
-- code/ai-gateway/report_loop.py: the report of the remote model brought into the shape that the
-- user interface expects.
pub mod Values
pub mod Fusion
pub mod Behavior
pub mod Shape
use diplom_code.Base.{
  ◌≡◌, refl, ℕ, zero, suc, ◌+◌, ◌-◌, ◌≤◌, ◌<◌, ℤ, pos, negsuc, String, Bool, true, false, not, ◌&&◌,
  ◌||◌, Option, none, some, List, [], ◌∷◌, ◌++◌, ◌==◌, string_eq, nat_eq, int_eq, ltb, leb, eqb,
  if◌then◌else◌, arith, ap, sym, ◌∙◌, subst, inl, inr, ◌⊎◌, Bool-cases, Option-cases, length, map,
  All, filter, is_nil, is_blank, is_empty, strip, ◌≢◌, ◌↔◌, ◌+ℤ◌, ◌-ℤ◌, ◌*ℤ◌, ◌≤ℤ◌, ◌<ℤ◌, ltb_ℤ,
  leb_ℤ, eqb_ℤ, min_ℤ, max_ℤ, pos_part, neg_part, sub_ℕ, ◌*◌, ◌/◌, ◌^◌, ◌<>◌, last_n, take, drop,
  any, all, get_elem?, sort_by, length-append, last_n-append, take_text, length_text, contains,
}
use diplom_code.Base.Dict.{Dict, keys, lookup, lookup_or, insert, lookup-insert, lookup_or-insert}
use diplom_code.Py.{
  Runtime, IsDouble, null, bool, int, float, str, arr, obj, nil, cons, end, field, Value, Items,
  Fields, get, get_or, has, fields, items, number, truthy, or_else, text_of, is_filled, is_str,
  is_dict, is_list, is_bool, is_null, dict_or_empty, zero_f, one_f, min_f, max_f, set_field, update,
  opt_str, opt_float, opt_int, Result, ok, raise, ◌>>=◌, ◌>>◌, require,
}
use diplom_code.Report.Sanitize.Values.{whole_fields, int_of, each_dict, to_non_empty_str, to_float}
use diplom_code.Report.Sanitize.Fusion.{sanitize_fusion}
use diplom_code.Report.Sanitize.Behavior.{sanitize_face_behavior_summary}

module _ ⦃rt : Runtime⦄ where
  open rt use {F, lt, of_int, is_nan, is_finite, trunc, round_at}

  -- `_sanitize_feature_counts`
  unfoldable pub sanitize_feature_counts : Value → Result Fields
  sanitize_feature_counts (obj fs) = whole_fields (max_ℤ (pos 0)) fs
  sanitize_feature_counts _ = ok end

  -- The sanitized participant with a number of audio chunks.
  abbrev pub participant : Fields → ℤ → Value
  participant raw chunks = obj (
      fields (
        ("participant_id", str (to_non_empty_str (get "participant_id" raw) "unknown"))
        ∷ ("audio_chunks", int chunks)
        ∷ (
          "avg_speech_activity_proxy",
          float (to_float (get "avg_speech_activity_proxy" raw) zero_f (some zero_f) (some one_f)),
        )
        ∷ (
          "avg_bitrate_kbps",
          float (to_float (get "avg_bitrate_kbps" raw) zero_f (some zero_f) none),
        )
        ∷ ("last_emotion", str (to_non_empty_str (get "last_emotion" raw) ""))
        ∷ ("last_transcript", str (take_text 180 (to_non_empty_str (get "last_transcript" raw) "")))
        ∷ []))

  -- One turn of the loop in `_sanitize_participants`.
  unfoldable pub sanitize_participant : Fields → Result Value
  sanitize_participant raw = do
    chunks ← int_of (to_float (get "audio_chunks" raw) zero_f (some zero_f) none)
    ok (participant raw chunks)

  abbrev pub always : Result Value → Result (Option Value)
  always r = do v ← r; ok (some v)

  -- `_sanitize_participants`
  unfoldable pub sanitize_participants : Value → Result Items
  sanitize_participants (arr xs) = each_dict (λ raw. always (sanitize_participant raw)) xs
  sanitize_participants _ = ok nil

  abbrev strings_of : Value → Value
  strings_of (arr xs) = arr (go xs)
    where
      go : Items → Items
      go nil = nil
      go (cons x ys) = cons (str (text_of x)) (go ys)
  strings_of _ = arr nil

  -- `_sanitize_data_quality`
  unfoldable pub sanitize_data_quality : Value → Result (Option Value)
  sanitize_data_quality (obj v) = do
    counters ← whole_fields (λ n. n) (dict_or_empty (get "counters_window" v))
    ok (
        some (
          obj (
            fields (
              ("complete", bool (truthy (get "complete" v)))
              ∷ ("degraded_sources", strings_of (get "degraded_sources" v))
              ∷ ("notes", strings_of (get "notes" v))
              ∷ ("counters_window", obj counters)
              ∷ []))))
  sanitize_data_quality _ = ok none

  -- `_PIPELINE_STAGES`
  abbrev pub pipeline_stages : List String
  pipeline_stages = "idle" ∷ "listening" ∷ "transcribing" ∷ "visual_only" ∷ []

  unfoldable pub stage_of : Value → String
  stage_of v =
      let stage = to_non_empty_str v "idle" in
      if contains stage pipeline_stages then stage else "idle"

  abbrev with_value : String → Option Value → Fields → Fields
  with_value k none rest = rest
  with_value k (some v) rest = field k v rest

  abbrev if_holds : (Value → Bool) → Value → Option Value
  if_holds p v = if p v then some v else none

  -- `_REPORT_SHAPE_EXTENSIONS`: copied where they have the type expected.
  extensions : Fields → Fields
  extensions raw = with_value "emotion_summary" (if_holds is_dict (get "emotion_summary" raw)) (
      with_value "transcript_summary" (if_holds is_dict (get "transcript_summary" raw)) (
        with_value "face_tracking_summary" (if_holds is_dict (get "face_tracking_summary" raw)) (
          with_value "timelines" (if_holds is_dict (get "timelines" raw)) (
            with_value "observations" (if_holds is_list (get "observations" raw)) (
              with_value "participant_tiles" (if_holds is_list (get "participant_tiles" raw)) (
                with_value "meeting_summary" (if_holds is_dict (get "meeting_summary" raw))
                  end))))))

  -- `sanitize_report_shape` of an object. (What is no object is replaced by the stub report.)
  unfoldable pub sanitize_report_fields : Fields → ℤ → Result Fields
  unfolding extensions
  sanitize_report_fields raw session_id = do
    sid ← int_of (to_float (get "session_id" raw) (of_int session_id) (some zero_f) none)
    counts ← sanitize_feature_counts (get "feature_counts" raw)
    participants ← sanitize_participants (get "participants" raw)
    fusion ← sanitize_fusion (get "fusion" raw)
    behavior ← sanitize_face_behavior_summary (get "face_behavior_summary" raw)
    quality ← sanitize_data_quality (get "data_quality" raw)
    ok (
        field "session_id" (int sid) (
          field "summary" (str (to_non_empty_str (get "summary" raw) "report generated")) (
            field "pipeline_stage" (str (stage_of (get "pipeline_stage" raw))) (
              field "speech_ratio"
                (float (to_float (get "speech_ratio" raw) zero_f (some zero_f) (some one_f)))
                (field "feature_counts" (obj counts) (
                  field "participants" (arr participants) (
                    with_value "fusion" fusion (
                      with_value "face_behavior_summary" behavior
                        (with_value "data_quality" quality (extensions raw))))))))))
