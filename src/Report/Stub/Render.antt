-- ===== src/Report/Stub/Render.antt =====
-- code/ai-gateway/modules/report/stub_builder.py: the tiles, the rollup and the whole report as the
-- dictionaries that the code returns.
use diplom_code.Base.{string_eq, ℕ, ℤ, String, Option, none, some, List, [], ◌∷◌, ◌++◌, length}
use diplom_code.Base.Dict.{Dict, lookup_or}
use diplom_code.Py.{
  Runtime, null, int, float, str, arr, obj, nil, cons, Value, Fields, fields, opt_str, opt_float,
  Result, ok, ◌>>=◌,
}
use diplom_code.Report.Stub.Meeting.{Tile, EmotionShare, StubReport, build_stub_report}
use diplom_code.Report.Stub.Json.{
  count_value, counts_value, list_of, participant_value, emotions_value, transcripts_value,
  face_summary_value, tracking_value, timelines_value, fusion_value,
}

module _ ⦃rt : Runtime⦄ where
  open rt use {F}

  abbrev pair_value : String × ℕ → Value
  pair_value (k, n) = arr (cons (str k) (cons (count_value n) nil))

  abbrev opt_counts : Option (Dict String ℕ) → Value
  opt_counts none = null
  opt_counts (some d) = counts_value d

  unfoldable pub tile_value : Tile → Value
  tile_value t = obj (
      fields (
        ("participant_id", str t.participant_id)
        ∷ (
          "emotion",
          obj (
              fields (
                ("events", count_value t.emotion_events)
                ∷ ("top", opt_str t.top_emotion)
                ∷ ("top_ratio", float t.top_ratio)
                ∷ ("top3", list_of pair_value t.top3)
                ∷ [])),
        )
        ∷ ("transcript_events", count_value t.transcript_events)
        ∷ (
          "audio",
          obj (
              fields (
                ("chunks", count_value t.audio_chunks)
                ∷ ("avg_speech_activity_proxy", opt_float t.avg_speech_activity_proxy)
                ∷ [])),
        )
        ∷ (
          "face_tracking",
          obj (
              fields (
                ("gate_passed_ratio", opt_float t.gate_passed_ratio)
                ∷ ("skip_reasons", opt_counts t.skip_reasons)
                ∷ [])),
        )
        ∷ []))

  abbrev share_value : EmotionShare → Value
  share_value e = obj (
      fields (
        ("emotion", str e.emotion)
        ∷ ("events", count_value e.events)
        ∷ ("share", float e.share)
        ∷ []))

  abbrev verbal_value : Tile → Value
  verbal_value t = obj (
      fields (
        ("participant_id", str t.participant_id)
        ∷ ("transcript_events", count_value t.transcript_events)
        ∷ ("audio_chunks", count_value t.audio_chunks)
        ∷ []))

  abbrev tracked_value : F × Tile → Value
  tracked_value (x, t) =
      obj (fields (("participant_id", str t.participant_id) ∷ ("gate_passed_ratio", float x) ∷ []))

  abbrev score_value : String × F → Value
  score_value (pid, x) =
      obj (fields (("participant_id", str pid) ∷ ("participation_score", float x) ∷ []))

  -- An entry that is there only with a value.
  abbrev entry : {A : Type 0} → String → (A → Value) → Option A → List (String × Value)
  entry k f none = []
  entry k f (some a) = (k, f a) ∷ []

  abbrev coverage_value : Dict String ℕ → Value
  coverage_value kinds = obj (
      fields (
        ("audio_events", count_value (lookup_or "audio" 0 kinds))
        ∷ ("text_events", count_value (lookup_or "text" 0 kinds))
        ∷ ("face_events", count_value (lookup_or "face" 0 kinds))
        ∷ ("face_debug_events", count_value (lookup_or "face_debug" 0 kinds))
        ∷ []))

  unfoldable pub meeting_value : StubReport → Value
  meeting_value r = obj (
      fields (
        ("session_id", int r.session_id)
          ∷ ("participant_count", count_value (length r.participants))
          ∷ ("emotion_distribution_top", list_of share_value r.distribution)
          ∷ ("pipeline_stage", str r.pipeline_stage)
          ∷ ("speech_ratio", float r.speech_ratio)
          ∷ ("feature_totals", counts_value r.feature_counts)
          ∷ ("highlights_ru", list_of str r.highlights_ru)
          ∷ entry "most_verbal_participant" verbal_value r.most
        ++ entry "least_verbal_participant" verbal_value r.least
        ++ entry "weakest_face_tracking" tracked_value r.weakest
        ++ entry "strongest_face_tracking" tracked_value r.strongest
        ++ ("participation_rank", list_of score_value r.rank)
          ∷ ("coverage", coverage_value r.feature_counts)
          ∷ []))

  abbrev filled_list : {A : Type 0} → List A → Option (List A)
  filled_list [] = none
  filled_list (x ∷ xs) = some (x ∷ xs)

  unfoldable pub report_fields : StubReport → Fields
  report_fields r = fields (
      ("session_id", int r.session_id)
        ∷ ("summary", str r.summary)
        ∷ ("pipeline_stage", str r.pipeline_stage)
        ∷ ("speech_ratio", float r.speech_ratio)
        ∷ ("feature_counts", counts_value r.feature_counts)
        ∷ ("participants", list_of participant_value r.participants)
        ∷ ("emotion_summary", emotions_value r.emotions)
        ∷ ("transcript_summary", transcripts_value r.transcripts)
        ∷ entry "face_behavior_summary" face_summary_value r.face_behavior
      ++ entry "face_tracking_summary"
          (tracking_value r.debug_events r.face_tracking_by_participant) r.face_tracking
      ++ entry "timelines" (timelines_value r.bucket_sec) (filled_list r.timeline)
      ++ ("observations", list_of str r.observation_lines)
        ∷ entry "participant_tiles" (list_of tile_value) (filled_list r.participant_tiles)
      ++ ("meeting_summary", meeting_value r) ∷ ("fusion", fusion_value r.fusion) ∷ [])

  -- `build_stub_report`, as the code returns it
  unfoldable pub stub_fields : ℤ → List Fields → F → Result Fields
  stub_fields session_id features bucket_sec = do
    r ← build_stub_report session_id features bucket_sec
    ok (report_fields r)
