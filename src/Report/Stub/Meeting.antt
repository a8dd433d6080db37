-- ===== src/Report/Stub/Meeting.antt =====
-- code/ai-gateway/modules/report/stub_builder.py: the observations, the tiles of the participants,
-- the rollup of the meeting, and the whole report.
use diplom_code.Base.{
  string_eq, int_eq, nat_eq, ℕ, ℤ, pos, String, Bool, ◌&&◌, ◌||◌, Option, none, some, List, [], ◌∷◌,
  ◌++◌, ◌<>◌, if◌then◌else◌, length, map, ltb, leb, eqb, is_nil, sort_by, text_leb,
}
use diplom_code.Base.Dict.{Dict, lookup, lookup_or, keys}
use diplom_code.Py.{Runtime, int, float, Fields, text_of, Result, ok, ◌>>=◌}
use diplom_code.Report.FaceSummary.{FaceSummary, build_face_behavior_summary}
use diplom_code.Report.Windowing.{FusionMeta, compute_fusion_meta}
use diplom_code.Report.Stub.Collect.{DebugEvent, Collected, empty_row, nothing_collected, collect}
use diplom_code.Report.Stub.Summaries.{
  ParticipantRow, share_of, talk_ratio, kind_count, stage_label, show_count, summary_text,
  participant_rows, sum_counts, EmotionHistory, emotion_summary, TextHistory, transcript_summary,
  Tracking, add_all, tracking_by_participant, tracking_total, by_count, top_k_counts, top_of,
  Timeline, timelines,
}
use diplom_code.Report.FaceSummary.{mean}

module _ ⦃rt : Runtime⦄ where
  open rt use {F, lit, lt, le, add, mul, of_int, round_at, round_int}

  abbrev counts_of : Dict String (Dict String ℕ) → List (Dict String ℕ)
  counts_of [] = []
  counts_of ((pid, d) ∷ ds) = d ∷ counts_of ds

  -- `global_counts`, and `global_emo` after it
  unfoldable pub all_emotions : Collected → Dict String ℕ
  all_emotions c = add_all (counts_of c.emotion_counts) []

  abbrev if_top : (String → ℕ → List String) → Option (String × ℕ) → List String
  if_top f none = []
  if_top f (some (k, n)) = f k n

  abbrev track_lines : Option Tracking → List String
  track_lines none = []
  track_lines (some t) =
      ("face_tracking_gate_passed_ratio=" <> text_of (float (round_at 3 t.gate_passed_ratio)))
      ∷ if_top (λ reason n. ("top_face_skip_reason=" <> reason) ∷ [])
          (top_of (by_count t.skip_reasons))

  unfoldable pub observations : Collected → List String
  observations c =
      if_top (λ emotion n. ("top_emotion=" <> emotion <> " (events=" <> show_count n <> ")") ∷ [])
        (top_of (by_count (all_emotions c)))
      ++ (if eqb (kind_count "text" c) 0 then "no_transcript_events" ∷ [] else [])
      ++ track_lines (tracking_total c)

  pub record Tile : Type 0 where
    pub participant_id : String
    pub emotion_events : ℕ
    pub top_emotion : Option String
    pub top_ratio : F
    pub top3 : List (String × ℕ)
    pub transcript_events : ℕ
    pub audio_chunks : ℕ
    pub avg_speech_activity_proxy : Option F
    pub gate_passed_ratio : Option F
    pub skip_reasons : Option (Dict String ℕ)

  abbrev map_some : {A B : Type 0} → (A → B) → Option A → Option B
  map_some f none = none
  map_some f (some a) = some (f a)

  abbrev events_of : Option (String × ℕ) → ℕ
  events_of none = 0
  events_of (some (k, n)) = n

  unfoldable pub tile_of : Collected → String → Tile
  tile_of c pid =
      let counts = lookup_or pid [] c.emotion_counts in
      let top = top_of (top_k_counts counts 1) in
      let tracking = lookup pid (tracking_by_participant c) in
      record {
        participant_id = pid;
        emotion_events = sum_counts counts;
        top_emotion = map_some (λ x. x.0) top;
        top_ratio = share_of (events_of top) (sum_counts counts);
        top3 = top_k_counts counts 3;
        transcript_events = length (lookup_or pid [] c.text_events);
        audio_chunks = (lookup_or pid empty_row c.participants).audio_chunks;
        avg_speech_activity_proxy = map_some (round_at 3) (mean (lookup_or pid [] c.activity));
        gate_passed_ratio = map_some (λ t. round_at 3 t.gate_passed_ratio) tracking;
        skip_reasons = map_some (λ t. t.skip_reasons) tracking;
      }

  -- `for pid in sorted(participants.keys())`
  unfoldable pub tiles : Collected → List Tile
  tiles c = map (tile_of c) (sort_by text_leb (keys c.participants))

  pub record EmotionShare : Type 0 where
    pub emotion : String
    pub events : ℕ
    pub share : F

  unfoldable pub emotion_distribution_top : Collected → List EmotionShare
  emotion_distribution_top c =
      let counts = all_emotions c in
      map (λ (k, n). record { emotion = k; events = n; share = share_of n (sum_counts counts) })
        (top_k_counts counts 8)

  -- The order of `(transcript_events, chunks)`, the greatest first.
  unfoldable pub more_verbal : Tile → Tile → Bool
  more_verbal s t =
      ltb t.transcript_events s.transcript_events
      || (eqb t.transcript_events s.transcript_events && leb t.audio_chunks s.audio_chunks)

  abbrev first_of : {A : Type 0} → List A → Option A
  first_of [] = none
  first_of (x ∷ xs) = some x

  -- The last of two or more.
  abbrev last_of : {A : Type 0} → List A → Option A
  last_of [] = none
  last_of (x ∷ []) = none
  last_of (x ∷ y ∷ []) = some y
  last_of (x ∷ y ∷ z ∷ xs) = last_of (y ∷ z ∷ xs)

  unfoldable pub most_verbal : Collected → Option Tile
  most_verbal c = first_of (sort_by more_verbal (tiles c))

  unfoldable pub least_verbal : Collected → Option Tile
  least_verbal c = last_of (sort_by more_verbal (tiles c))

  abbrev ranked : List Tile → List (F × Tile)
  ranked [] = []
  ranked (t ∷ ts) = elim t.gate_passed_ratio [ none ↦ ranked ts | some x ↦ (x, t) ∷ ranked ts ]

  -- `min` and `max` by the first component: the first of equals
  unfoldable pub best_of : (F → F → Bool) → F × Tile → List (F × Tile) → F × Tile
  best_of better x [] = x
  best_of better x (y ∷ ys) = best_of better (if better y.0 x.0 then y else x) ys

  abbrev best : (F → F → Bool) → List (F × Tile) → Option (F × Tile)
  best better [] = none
  best better (x ∷ xs) = some (best_of better x xs)

  unfoldable pub weakest_tracking : Collected → Option (F × Tile)
  weakest_tracking c = best lt (ranked (tiles c))

  unfoldable pub strongest_tracking : Collected → Option (F × Tile)
  strongest_tracking c = best (λ x y. lt y x) (ranked (tiles c))

  unfoldable pub participation_score : Tile → F
  participation_score t = round_at 2 (
      add
        (add (mul (of_int (pos t.transcript_events)) (lit 20 1))
          (mul (of_int (pos t.audio_chunks)) (lit 12 2)))
        (mul (of_int (pos t.emotion_events)) (lit 35 2)))

  unfoldable pub participation_rank : Collected → List (String × F)
  participation_rank c =
      sort_by (λ a b. le b.1 a.1) (map (λ t. (t.participant_id, participation_score t)) (tiles c))

  -- `int(round(x * 100))`
  abbrev percent_text : F → String
  percent_text x = text_of (int (round_int (mul x (of_int (pos 100)))))

  abbrev emotion_line : List EmotionShare → List String
  emotion_line [] = []
  emotion_line (e ∷ es) =
      ("По встрече чаще всего фиксировалась эмоция «"
        <> e.emotion
        <> "» ("
        <> show_count e.events
        <> " событий, ~"
        <> percent_text e.share
        <> "% от всех эмоций).")
      ∷ []

  abbrev verbal_line : Option Tile → List String
  verbal_line none = []
  verbal_line (some t) =
      if is_nil t.participant_id
      then []
      else ("Больше всего текстовых событий ASR у участника "
          <> t.participant_id
          <> " ("
          <> show_count t.transcript_events
          <> ").")
        ∷ []

  abbrev tracking_line : Option (F × Tile) → List String
  tracking_line none = []
  tracking_line (some (x, t)) =
      ("Сложнее всего удерживать качество трекинга лица у "
        <> t.participant_id
        <> " (gate passed ~"
        <> percent_text x
        <> "%).")
      ∷ []

  unfoldable pub highlights : Collected → List String
  highlights c =
      emotion_line (emotion_distribution_top c)
      ++ verbal_line (most_verbal c)
      ++ tracking_line (weakest_tracking c)
      ++ (if eqb (kind_count "text" c) 0
          then "Транскрипт не поступал — проверьте модуль speech и аудио-поток." ∷ []
          else [])
      ++ (if eqb (kind_count "face_debug" c) 0 && ltb 0 (kind_count "face" c)
          then "Для детального трекинга включите emit_debug_face в настройках face-модуля." ∷ []
          else [])

  pub record StubReport : Type 0 where
    pub session_id : ℤ
    pub summary : String
    pub pipeline_stage : String
    pub speech_ratio : F
    pub feature_counts : Dict String ℕ
    pub participants : List ParticipantRow
    pub emotions : List EmotionHistory
    pub transcripts : List TextHistory
    pub face_behavior : Option FaceSummary
    pub face_tracking : Option Tracking
    pub face_tracking_by_participant : Dict String Tracking
    pub debug_events : Dict String (List DebugEvent)
    pub bucket_sec : F
    pub timeline : List Timeline
    pub observation_lines : List String
    pub participant_tiles : List Tile
    pub distribution : List EmotionShare
    pub most : Option Tile
    pub least : Option Tile
    pub weakest : Option (F × Tile)
    pub strongest : Option (F × Tile)
    pub highlights_ru : List String
    pub rank : List (String × F)
    pub fusion : FusionMeta

  abbrev assemble : ℤ → List Fields → F → Collected → FusionMeta → StubReport
  assemble session_id features bucket_sec c fusion = record {
    session_id = session_id;
    summary = summary_text c;
    pipeline_stage = stage_label c;
    speech_ratio = talk_ratio c;
    feature_counts = c.kinds;
    participants = participant_rows c;
    emotions = emotion_summary c;
    transcripts = transcript_summary c;
    face_behavior = build_face_behavior_summary features;
    face_tracking = tracking_total c;
    face_tracking_by_participant = tracking_by_participant c;
    debug_events = c.debug_events;
    bucket_sec = bucket_sec;
    timeline = timelines bucket_sec c;
    observation_lines = observations c;
    participant_tiles = tiles c;
    distribution = emotion_distribution_top c;
    most = most_verbal c;
    least = least_verbal c;
    weakest = weakest_tracking c;
    strongest = strongest_tracking c;
    highlights_ru = highlights c;
    rank = participation_rank c;
    fusion = fusion;
  }

  -- `build_stub_report`
  unfoldable pub build_stub_report : ℤ → List Fields → F → Result StubReport
  build_stub_report session_id features bucket_sec = do
    c ← collect bucket_sec features nothing_collected
    fusion ← compute_fusion_meta features bucket_sec
    ok (assemble session_id features bucket_sec c fusion)
