-- ===== src/Report/Stub/Json.antt =====
-- code/ai-gateway/modules/report/stub_builder.py, windowing.py and face_behavior.py: the records of
-- the report as the dictionaries that the code returns.
use diplom_code.Base.{string_eq, ℕ, pos, String, Option, none, some, List, [], ◌∷◌, ◌++◌, map}
use diplom_code.Base.Dict.{Dict, lookup_or}
use diplom_code.Py.{
  Runtime, null, bool, int, float, str, arr, obj, Value, Fields, fields, items, end, field, opt_str,
  opt_float,
}
use diplom_code.Report.FaceSummary.{FaceSummary, ParticipantSummary}
use diplom_code.Report.Windowing.{FusionMeta, Slot}
use diplom_code.Report.Stub.Collect.{EmotionEvent, TextEvent, TextItem, DebugEvent}
use diplom_code.Report.Stub.Summaries.{
  ParticipantRow, EmotionHistory, TextHistory, Tracking, EmotionBucket, TextBucket, Timeline,
}

module _ ⦃rt : Runtime⦄ where
  open rt use {F, lt, round_at}

  abbrev pub count_value : ℕ → Value
  count_value n = int (pos n)

  abbrev dict_by : {A : Type 0} → (A → Value) → Dict String A → Fields
  dict_by f [] = end
  dict_by f ((k, a) ∷ d) = field k (f a) (dict_by f d)

  abbrev pub counts_value : Dict String ℕ → Value
  counts_value d = obj (dict_by count_value d)

  abbrev pub list_of : {A : Type 0} → (A → Value) → List A → Value
  list_of f xs = arr (items (map f xs))

  abbrev dict_of : {A : Type 0} → (A → String) → (A → List (String × Value)) → List A → Value
  dict_of key f xs = obj (fields (map (λ a. (key a, obj (fields (f a)))) xs))

  unfoldable pub participant_value : ParticipantRow → Value
  participant_value p = obj (
      fields (
        ("participant_id", str p.participant_id)
        ∷ ("audio_chunks", count_value p.audio_chunks)
        ∷ ("avg_speech_activity_proxy", opt_float p.avg_speech_activity_proxy)
        ∷ ("avg_bitrate_kbps", opt_float p.avg_bitrate_kbps)
        ∷ ("last_emotion", opt_str p.last_emotion)
        ∷ ("last_transcript", opt_str p.last_transcript)
        ∷ []))

  abbrev emotion_event_value : EmotionEvent → Value
  emotion_event_value e = obj (
      fields (
        ("ts", opt_float e.ts)
        ∷ ("emotion", str e.emotion)
        ∷ ("confidence", opt_float e.confidence)
        ∷ []))

  abbrev text_event_value : TextEvent → Value
  text_event_value e = obj (
      fields
        (("ts", opt_float e.ts) ∷ ("text", str e.item.text) ∷ ("final", bool e.item.final) ∷ []))

  abbrev opt_obj : Option Fields → Value
  opt_obj none = null
  opt_obj (some fs) = obj fs

  abbrev debug_event_value : DebugEvent → Value
  debug_event_value e = obj (
      fields (
        ("ts", opt_float e.ts)
        ∷ ("gate_passed", bool e.gate_passed)
        ∷ ("skip_reason", opt_str e.skip_reason)
        ∷ ("region", opt_obj e.region)
        ∷ ("landmarks_n", int e.landmarks_n)
        ∷ ("dominant_emotion", opt_str e.dominant_emotion)
        ∷ ("model_confidence", opt_float e.model_confidence)
        ∷ []))

  abbrev by_participant : Value → Value
  by_participant v = obj (field "by_participant" v end)

  unfoldable pub emotions_value : List EmotionHistory → Value
  emotions_value hs = by_participant (
      dict_of (λ h. h.participant_id)
        (λ h.
          ("events", count_value h.events)
          ∷ ("counts", counts_value h.counts)
          ∷ ("recent", list_of emotion_event_value h.recent)
          ∷ [])
        hs)

  unfoldable pub transcripts_value : List TextHistory → Value
  transcripts_value hs = by_participant (
      dict_of (λ h. h.participant_id)
        (λ h. ("events", count_value h.events) ∷ ("recent", list_of text_event_value h.recent) ∷ [])
        hs)

  abbrev face_participant_value : ParticipantSummary → Value
  face_participant_value p = obj (
      fields (
        ("participant_id", str p.participant_id)
        ∷ ("events", count_value p.events)
        ∷ ("trackable_events", count_value p.trackable_events)
        ∷ ("trackable_ratio", float p.trackable_ratio)
        ∷ ("avg_engagement_proxy", opt_float p.avg_engagement_proxy)
        ∷ []))

  unfoldable pub face_summary_value : FaceSummary → Value
  face_summary_value s = obj (
      fields (
        ("events", count_value s.events)
        ∷ ("trackable_events", count_value s.trackable_events)
        ∷ ("trackable_ratio", float s.trackable_ratio)
        ∷ ("guard_reasons", counts_value s.guard_reasons)
        ∷ ("participants", list_of face_participant_value s.participants)
        ∷ []))

  abbrev tracking_fields : Tracking → List (String × Value)
  tracking_fields t =
      ("events", count_value t.events)
      ∷ ("gate_passed_events", count_value t.gate_passed_events)
      ∷ ("gate_passed_ratio", float t.gate_passed_ratio)
      ∷ ("skip_reasons", counts_value t.skip_reasons)
      ∷ []

  abbrev tracking_values : Dict String (List DebugEvent) → Dict String Tracking → Fields
  tracking_values recent d = fields (
      map
        (λ (pid, t). (
          pid,
          obj (
              fields (
                tracking_fields t
                ++ ("recent", list_of debug_event_value (lookup_or pid [] recent)) ∷ [])),
        ))
        d)

  unfoldable pub tracking_value :
      Dict String (List DebugEvent) → Dict String Tracking → Tracking → Value
  tracking_value recent d t =
      obj (fields (tracking_fields t ++ ("by_participant", obj (tracking_values recent d)) ∷ []))

  abbrev text_item_value : TextItem → Value
  text_item_value t = obj (fields (("text", str t.text) ∷ ("final", bool t.final) ∷ []))

  abbrev emotion_bucket_value : EmotionBucket → Value
  emotion_bucket_value b = obj (
      fields (
        ("bucket_index", int b.bucket_index)
        ∷ ("bucket_start_ts", float b.bucket_start_ts)
        ∷ ("top_emotion", str b.top_emotion)
        ∷ ("counts", counts_value b.counts)
        ∷ []))

  abbrev text_bucket_value : TextBucket → Value
  text_bucket_value b = obj (
      fields (
        ("bucket_index", int b.bucket_index)
        ∷ ("bucket_start_ts", float b.bucket_start_ts)
        ∷ ("items", list_of text_item_value b.items)
        ∷ []))

  unfoldable pub timelines_value : F → List Timeline → Value
  timelines_value bucket_sec ts = obj (
      fields (
        ("bucket_sec", float (round_at 3 bucket_sec))
        ∷ (
          "by_participant",
          dict_of (λ t. t.participant_id)
              (λ t.
                ("emotion", list_of emotion_bucket_value t.emotion)
                ∷ ("transcript", list_of text_bucket_value t.transcript)
                ∷ [])
              ts,
        )
        ∷ []))

  abbrev slot_value : Slot → Value
  slot_value s = obj (
      fields (
        ("participant_id", str s.participant_id)
        ∷ ("bucket_index", int s.bucket_index)
        ∷ ("bucket_start_ts", float s.bucket_start_ts)
        ∷ ("kinds", counts_value s.kinds)
        ∷ ("trace_ids", list_of str s.trace_ids)
        ∷ []))

  unfoldable pub fusion_value : FusionMeta → Value
  fusion_value m = obj (
      fields (
        ("bucket_sec", float m.bucket_sec)
        ∷ ("trace_ids_by_participant", obj (dict_by (list_of str) m.trace_ids_by_participant))
        ∷ ("buckets", list_of slot_value m.buckets)
        ∷ []))
