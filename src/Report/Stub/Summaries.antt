-- ===== src/Report/Stub/Summaries.antt =====
-- code/ai-gateway/modules/report/stub_builder.py: the rows of the participants, the stage, the
-- history of emotions and texts, the face tracking and the timelines.
use diplom_code.Base.{
  string_eq, int_eq, nat_eq, ℕ, ◌+◌, ℤ, pos, String, Bool, not, ◌||◌, Option, none, some, List, [],
  ◌∷◌, ◌++◌, ◌<>◌, if◌then◌else◌, length, map, ltb, leb, is_empty, last_n, take, sort_by, leb_ℤ,
  filter,
}
use diplom_code.Base.Dict.{Dict, lookup_or, insert, keys}
use diplom_code.Py.{Runtime, int, float, text_of, zero_f}
use diplom_code.Report.FaceSummary.{mean}
use diplom_code.Report.Quality.{sorted_set}
use diplom_code.Report.Stub.Collect.{Collected, Row, EmotionEvent, TextEvent, TextItem}

module _ ⦃rt : Runtime⦄ where
  open rt use {F, lt, mul, div, of_int, round_at}

  pub record ParticipantRow : Type 0 where
    pub participant_id : String
    pub audio_chunks : ℕ
    pub avg_speech_activity_proxy : Option F
    pub avg_bitrate_kbps : Option F
    pub last_emotion : Option String
    pub last_transcript : Option String

  -- `round(m / n, 3) if n > 0 else 0.0`
  unfoldable pub share_of : ℕ → ℕ → F
  share_of m n = if ltb 0 n then round_at 3 (div (of_int (pos m)) (of_int (pos n))) else zero_f

  unfoldable pub talk_ratio : Collected → F
  talk_ratio c = share_of c.speech_chunks c.total_audio_chunks

  abbrev pub kind_count : String → Collected → ℕ
  kind_count k c = lookup_or k 0 c.kinds

  unfoldable pub stage_label : Collected → String
  stage_label c =
      if ltb 0 (kind_count "text" c)
      then "transcribing"
      else if ltb 0 c.total_audio_chunks
      then "listening"
      else if ltb 0 (kind_count "face" c)
      then "visual_only"
      else "idle"

  abbrev pub show_count : ℕ → String
  show_count n = text_of (int (pos n))

  unfoldable pub summary_text : Collected → String
  summary_text c =
      "pipeline="
      <> stage_label c
      <> "; audio_chunks="
      <> show_count c.total_audio_chunks
      <> "; text_events="
      <> show_count (kind_count "text" c)
      <> "; face_events="
      <> show_count (kind_count "face" c)
      <> "; speech_ratio="
      <> text_of (float (talk_ratio c))

  abbrev row_of : Collected → String × Row → ParticipantRow
  row_of c (pid, r) = record {
    participant_id = pid;
    audio_chunks = r.audio_chunks;
    avg_speech_activity_proxy = mean (lookup_or pid [] c.activity);
    avg_bitrate_kbps = mean (lookup_or pid [] c.bitrate);
    last_emotion = r.last_emotion;
    last_transcript = r.last_transcript;
  }

  -- More audio chunks come first, and the order of arrival decides between equals.
  unfoldable pub participant_rows : Collected → List ParticipantRow
  participant_rows c =
      sort_by (λ p q. leb q.audio_chunks p.audio_chunks) (map (row_of c) c.participants)

  abbrev pub sum_counts : {K : Type 0} → Dict K ℕ → ℕ
  sum_counts [] = 0
  sum_counts ((k, n) ∷ d) = n + sum_counts d

  pub record EmotionHistory : Type 0 where
    pub participant_id : String
    pub events : ℕ
    pub counts : Dict String ℕ
    pub recent : List EmotionEvent

  unfoldable pub emotion_summary : Collected → List EmotionHistory
  emotion_summary c =
      map
        (λ (pid, counts). record {
          participant_id = pid;
          events = sum_counts counts;
          counts = counts;
          recent = lookup_or pid [] c.emotion_events;
        })
        c.emotion_counts

  pub record TextHistory : Type 0 where
    pub participant_id : String
    pub events : ℕ
    pub recent : List TextEvent

  unfoldable pub transcript_summary : Collected → List TextHistory
  transcript_summary c =
      map (λ (pid, es). record { participant_id = pid; events = length es; recent = es })
        c.text_events

  pub record Tracking : Type 0 where
    pub events : ℕ
    pub gate_passed_events : ℕ
    pub gate_passed_ratio : F
    pub skip_reasons : Dict String ℕ

  -- `for k, n in counts.items(): total[k] += n`
  unfoldable pub add_counts : Dict String ℕ → Dict String ℕ → Dict String ℕ
  add_counts [] total = total
  add_counts ((k, n) ∷ counts) total = add_counts counts (insert k (lookup_or k 0 total + n) total)

  unfoldable pub add_all : List (Dict String ℕ) → Dict String ℕ → Dict String ℕ
  add_all [] total = total
  add_all (d ∷ ds) total = add_all ds (add_counts d total)

  unfoldable pub tracking_of : Collected → String → ℕ → Tracking
  tracking_of c pid events =
      let passed = lookup_or pid 0 c.debug_passed in
      record {
        events = events;
        gate_passed_events = passed;
        gate_passed_ratio = share_of passed events;
        skip_reasons = lookup_or pid [] c.skip_reasons;
      }

  unfoldable pub tracking_by_participant : Collected → Dict String Tracking
  tracking_by_participant c = map (λ (pid, events). (pid, tracking_of c pid events)) c.debug_counts

  abbrev trackings : Dict String Tracking → List Tracking
  trackings [] = []
  trackings ((pid, t) ∷ d) = t ∷ trackings d

  abbrev sum_passed : List Tracking → ℕ
  sum_passed [] = 0
  sum_passed (t ∷ ts) = t.gate_passed_events + sum_passed ts

  -- `face_tracking_summary`, if there is a debug event
  unfoldable pub tracking_total : Collected → Option Tracking
  tracking_total c =
      let all_of = trackings (tracking_by_participant c) in
      let events = sum_counts c.debug_counts in
      let passed = sum_passed all_of in
      if is_empty c.debug_counts
      then none
      else some (record {
        events = events;
        gate_passed_events = passed;
        gate_passed_ratio = share_of passed events;
        skip_reasons = add_all (map (λ t. t.skip_reasons) all_of) [];
      })

  -- The greatest counts first; `_top_k_counts` takes `k` of them.
  unfoldable pub by_count : Dict String ℕ → List (String × ℕ)
  by_count counts = sort_by (λ a b. leb b.1 a.1) counts

  abbrev pub top_k_counts : Dict String ℕ → ℕ → List (String × ℕ)
  top_k_counts counts k = take k (by_count counts)

  abbrev pub top_of : List (String × ℕ) → Option (String × ℕ)
  top_of [] = none
  top_of (x ∷ xs) = some x

  pub record EmotionBucket : Type 0 where
    pub bucket_index : ℤ
    pub bucket_start_ts : F
    pub top_emotion : String
    pub counts : Dict String ℕ

  pub record TextBucket : Type 0 where
    pub bucket_index : ℤ
    pub bucket_start_ts : F
    pub items : List TextItem

  -- `_MAX_BUCKETS`
  abbrev pub max_buckets : ℕ
  max_buckets = 20

  abbrev with_top :
      F → ℤ → Dict String ℕ → Option (String × ℕ) → List EmotionBucket → List EmotionBucket
  with_top start b counts none rows = rows
  with_top start b counts (some (top, n)) rows =
      record { bucket_index = b; bucket_start_ts = start; top_emotion = top; counts = counts }
      ∷ rows

  unfoldable pub emotion_rows : F → Dict ℤ (Dict String ℕ) → List EmotionBucket
  emotion_rows bucket_sec [] = []
  emotion_rows bucket_sec ((b, counts) ∷ d) =
      with_top (round_at 3 (mul (of_int b) bucket_sec)) b counts (top_of (by_count counts))
        (emotion_rows bucket_sec d)

  abbrev text_row : F → ℤ → List TextItem → TextBucket
  text_row bucket_sec b xs = record {
    bucket_index = b;
    bucket_start_ts = round_at 3 (mul (of_int b) bucket_sec);
    items = last_n 3 xs;
  }

  unfoldable pub text_rows : F → Dict ℤ (List TextItem) → List TextBucket
  text_rows bucket_sec [] = []
  text_rows bucket_sec ((b, xs) ∷ d) =
      let rest = text_rows bucket_sec d in
      if is_empty xs then rest else text_row bucket_sec b xs ∷ rest

  pub record Timeline : Type 0 where
    pub participant_id : String
    pub emotion : List EmotionBucket
    pub transcript : List TextBucket

  unfoldable pub timeline_of : F → Collected → String → Timeline
  timeline_of bucket_sec c pid = record {
    participant_id = pid;
    emotion = last_n max_buckets (
        sort_by (λ a b. leb_ℤ a.bucket_index b.bucket_index)
          (emotion_rows bucket_sec (lookup_or pid [] c.emotion_buckets)));
    transcript = last_n max_buckets (
        sort_by (λ a b. leb_ℤ a.bucket_index b.bucket_index)
          (text_rows bucket_sec (lookup_or pid [] c.text_buckets)));
  }

  abbrev has_rows : Timeline → Bool
  has_rows t = not (is_empty t.emotion) || not (is_empty t.transcript)

  -- `timelines`: empty where the report has none
  unfoldable pub timelines : F → Collected → List Timeline
  timelines bucket_sec c =
      if lt zero_f bucket_sec
      then filter has_rows (
          map (timeline_of bucket_sec c)
            (sorted_set (keys c.emotion_buckets ++ keys c.text_buckets)))
      else []
