-- ===== src/Examples/Reports.antt =====
-- The theorems about reports, configurations and connections at concrete inputs.
use diplom_code.Base.{
  ◌≡◌, refl, pos, negsuc, true, false, none, some, List, [], ◌∷◌, All, sum_by, length, ltb_ℤ, map,
  ◌≢◌, string_eq, int_eq, is_blank, strip, lstrip, rstrip, is_space,
}
use diplom_code.Base.Dict.{lookup, lookup_or}
use diplom_code.Py.{
  null, bool, int, float, str, arr, obj, nil, cons, end, field, Fields, get, Result, ok, raise,
  dict_or_empty,
}
use diplom_code.Examples.Numbers.{thousandths, thousandths_laws}
use diplom_code.Report.Sanitize.{
  sanitize_report_fields, sanitize_feature_counts, sanitize_participants, sanitize_participant,
  sanitize_data_quality,
}
use diplom_code.Report.Sanitize.Values.{int_of, whole_fields, whole, each_dict}
use diplom_code.Report.Sanitize.Fusion.{sanitize_fusion}
use diplom_code.Report.Sanitize.Behavior.{sanitize_face_behavior_summary}
use diplom_code.Report.Sanitize.Shape.{IsShaped, sanitized-IsShaped}
use diplom_code.Report.Windowing.{FusionMeta, compute_fusion_meta}
use diplom_code.Report.Windowing.Totals.{fusion_counts, slot_total}
use diplom_code.Report.Quality.{augment_report_data_quality}
use diplom_code.Report.Quality.Laws.{quality_tells}
use diplom_code.Report.Orchestrator.{build_report_ws_message, report_type, report_stage}
use diplom_code.Hybrid.{validate_report_message}
use diplom_code.Hybrid.Producers.{validate-build_report_ws_message}
use diplom_code.Config.{
  Disk, State, poll_path, tracked, poll_mtime, reload, load_gateway_config,
  maybe_reload_gateway_config,
}
use diplom_code.Config.Reload.{Polled, reload_cases, reload_settles}
use diplom_code.Client.{refused, broken, run_rounds, start}
use diplom_code.Client.Backoff.{Within, delays_bounded, refusals_double, doubling}
use diplom_code.Metrics.{Rings, latency_summary, Stats}
use diplom_code.Metrics.Summary.{summary_total}
use diplom_code.Report.FaceSummary.{
  FaceSummary, build_face_behavior_summary, summarize, tally_all, empty_tally, tally, seen,
}
use diplom_code.Report.FaceSummary.Totals.{AddsUp, summary-AddsUp}

abbrev a_report : Fields
a_report = field "speech_ratio" (float (pos 7000)) (
    field "feature_counts" (obj (field "face" (float (negsuc 3999)) end))
      (field "participants" (arr (cons (obj end) nil)) end))

abbrev value_of : Result Fields → Fields
value_of (ok x) = x
value_of (raise e) = end

abbrev sanitized : Fields
sanitized = value_of (sanitize_report_fields a_report (pos 4))

sanitized-IsShaped_example : IsShaped thousandths_laws sanitized
unfolding sanitize_report_fields int_of sanitize_feature_counts whole_fields whole
    sanitize_participants each_dict sanitize_participant sanitize_fusion
    sanitize_face_behavior_summary sanitize_data_quality
sanitized-IsShaped_example = sanitized-IsShaped thousandths_laws a_report (pos 4) sanitized refl

abbrev features : List Fields
features =
    field "ts" (float (pos 2500)) (field "kind" (str "face") end)
    ∷ field "ts" (float (pos 9500)) (field "kind" (int (pos 3)) end)
    ∷ []

fusion_counts_example :
    (meta : FusionMeta) × (compute_fusion_meta features (pos 5000) ≡ ok meta)
    × (sum_by slot_total meta.buckets ≡ 1)
fusion_counts_example = fusion_counts features (pos 5000) (refl, (refl, tt)) refl

quality_tells_example :
    let quality = dict_or_empty (
      get "data_quality" (
        augment_report_data_quality end
          (("face_inference_errors", pos 2) ∷ [])
          (some (("face_inference_errors", pos 1) ∷ [])))) in
    (get "complete" quality ≡ bool false)
    × (get "degraded_sources" quality ≡ arr (cons (str "face_inference") nil))
unfolding lookup_or
quality_tells_example =
    quality_tells end (("face_inference_errors", pos 2) ∷ [])
      (some (("face_inference_errors", pos 1) ∷ []))

validate-build_report_ws_message_example :
    let msg =
      build_report_ws_message "now"
        (pos 4)
        end
        "stub"
        "v1"
        "t-1"
        (report_type true)
        (report_stage true)
        null in
    (validate_report_message msg true ≡ ok tt) × (validate_report_message msg false ≢ ok tt)
unfolding is_blank strip lstrip rstrip is_space
validate-build_report_ws_message_example =
    validate-build_report_ws_message "now" (pos 4) end "stub" "v1" "t-1" null true refl refl

abbrev disk : Disk
disk = record {
  env_path = "c.json";
  is_file = λ _. true;
  mtime = λ _. some 12;
  json = λ _. ok (obj end);
  default_json = raise "OSError";
}

abbrev old_state : State
old_state = record { cfg = none; track_path = some "c.json"; track_mtime = some 11 }

reload_cases_example : Polled disk old_state (maybe_reload_gateway_config disk old_state)
reload_cases_example = reload_cases disk old_state

reload_settles_example :
    maybe_reload_gateway_config disk
      (record { cfg = some []; track_path = some "c.json"; track_mtime = some 12 })
    ≡ (ok false, record { cfg = some []; track_path = some "c.json"; track_mtime = some 12 })
unfolding maybe_reload_gateway_config poll_path tracked poll_mtime reload load_gateway_config
reload_settles_example = reload_settles disk old_state refl

delays_bounded_example : All Within (run_rounds ((refused, none) ∷ (broken, some "t") ∷ []) start)
delays_bounded_example = delays_bounded ((refused, none) ∷ (broken, some "t") ∷ [])

refusals_double_example :
    run_rounds (map (λ t. (refused, t)) (none ∷ some "t" ∷ none ∷ [])) start
    ≡ doubling (none ∷ some "t" ∷ none ∷ []) 1
refusals_double_example = refusals_double (none ∷ some "t" ∷ none ∷ [])

abbrev rings : Rings
rings = ("face", pos 12 ∷ pos 5 ∷ []) ∷ []

summary_total_example :
    (s : Stats) × (latency_summary "face" rings ≡ ok (some s))
    × (s.count ≡ length (lookup_or "face" [] rings))
    × (ltb_ℤ s.p95_ms (pos 0) ≡ false)
    × (ltb_ℤ s.max_ms (pos 0) ≡ false)
unfolding lookup_or lookup
summary_total_example =
    summary_total (λ x. ltb_ℤ x (pos 0) ≡ false) "face" rings (refl, (refl, tt)) (λ e. cc)

abbrev behaviors : List Fields
behaviors =
    field "kind" (str "face") (
      field "data"
        (obj (
          field "face_behavior"
            (obj (field "quality" (obj (field "trackable" (bool true) end)) end)) end))
        end)
    ∷ field "kind" (str "audio") end
    ∷ []

abbrev behavior_summary : FaceSummary
behavior_summary = summarize (tally_all behaviors empty_tally)

summary-AddsUp_example : AddsUp behaviors behavior_summary
unfolding build_face_behavior_summary tally_all tally seen
summary-AddsUp_example = summary-AddsUp behaviors behavior_summary refl
