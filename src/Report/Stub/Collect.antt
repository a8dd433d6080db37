-- ===== src/Report/Stub/Collect.antt =====
-- code/ai-gateway/modules/report/stub_builder.py: what the loop over the features collects.
use diplom_code.Base.{
  string_eq, int_eq, nat_eq, ℕ, ◌+◌, ℤ, pos, String, Bool, true, false, not, Option, none, some,
  List, [], ◌∷◌, ◌++◌, ◌==◌, if◌then◌else◌, length, ltb, is_blank, strip, take_text,
}
use diplom_code.Base.Dict.{Dict, lookup_or, insert}
use diplom_code.Py.{
  Runtime, bool, str, obj, Value, Fields, end, get, number, truthy, or_else, dict_or_empty, zero_f,
  whole, Result, ok, ◌>>=◌,
}
use diplom_code.Act.{int_arg}
use diplom_code.Report.Windowing.{participant_of}

module _ ⦃rt : Runtime⦄ where
  open rt use {F, lit, lt, le, floor_div}

  pub record Row : Type 0 where
    pub audio_chunks : ℕ
    pub last_emotion : Option String
    pub last_transcript : Option String

  abbrev pub empty_row : Row
  empty_row = record { audio_chunks = 0; last_emotion = none; last_transcript = none }

  pub record EmotionEvent : Type 0 where
    pub ts : Option F
    pub emotion : String
    pub confidence : Option F

  pub record TextItem : Type 0 where
    pub text : String
    pub final : Bool

  pub record TextEvent : Type 0 where
    pub ts : Option F
    pub item : TextItem

  pub record DebugEvent : Type 0 where
    pub ts : Option F
    pub gate_passed : Bool
    pub skip_reason : Option String
    pub region : Option Fields
    pub landmarks_n : ℤ
    pub dominant_emotion : Option String
    pub model_confidence : Option F

  -- The variables of the loop; a `defaultdict` reads as empty where it has no entry.
  pub record Collected : Type 0 where
    pub kinds : Dict String ℕ
    pub participants : Dict String Row
    pub activity : Dict String (List F)
    pub bitrate : Dict String (List F)
    pub emotion_counts : Dict String (Dict String ℕ)
    pub emotion_events : Dict String (List EmotionEvent)
    pub text_events : Dict String (List TextEvent)
    pub debug_events : Dict String (List DebugEvent)
    pub debug_counts : Dict String ℕ
    pub debug_passed : Dict String ℕ
    pub skip_reasons : Dict String (Dict String ℕ)
    pub emotion_buckets : Dict String (Dict ℤ (Dict String ℕ))
    pub text_buckets : Dict String (Dict ℤ (List TextItem))
    pub total_audio_chunks : ℕ
    pub speech_chunks : ℕ

  abbrev pub nothing_collected : Collected
  nothing_collected = record {
    kinds = [];
    participants = [];
    activity = [];
    bitrate = [];
    emotion_counts = [];
    emotion_events = [];
    text_events = [];
    debug_events = [];
    debug_counts = [];
    debug_passed = [];
    skip_reasons = [];
    emotion_buckets = [];
    text_buckets = [];
    total_audio_chunks = 0;
    speech_chunks = 0;
  }

  -- `d[k] += n` for a number that is 1 or 0
  unfoldable pub bump : String → Bool → Dict String ℕ → Dict String ℕ
  bump k b d = if b then insert k (lookup_or k 0 d + 1) d else d

  -- `d[k].append(x)`, while there are fewer than `n`
  unfoldable pub append_below :
      {A : Type 0} → ℕ → String → A → Dict String (List A) → Dict String (List A)
  append_below n k x d =
      if ltb (length (lookup_or k [] d)) n then insert k (lookup_or k [] d ++ x ∷ []) d else d

  abbrev append_some : String → Option F → Dict String (List F) → Dict String (List F)
  append_some k none d = d
  append_some k (some x) d = insert k (lookup_or k [] d ++ x ∷ []) d

  abbrev pub count_speech : Option F → ℕ → ℕ
  count_speech none n = n
  count_speech (some x) n = if le (lit 35 2) x then n + 1 else n

  unfoldable pub in_row : String → (Row → Row) → Dict String Row → Dict String Row
  in_row pid f d = insert pid (f (lookup_or pid empty_row d)) d

  unfoldable pub on_kind : Value → Collected → Collected
  on_kind (str k) c = record c { kinds = bump k true c.kinds }
  on_kind _ c = c

  unfoldable pub on_audio : String → Fields → Collected → Collected
  on_audio pid content c =
      let af = dict_or_empty (get "audio_features" content) in
      let sap = number (get "speech_activity_proxy" af) in
      record c {
        participants =
            in_row pid (λ r. record r { audio_chunks = r.audio_chunks + 1 }) c.participants;
        activity = append_some pid sap c.activity;
        bitrate = append_some pid (number (get "bitrate_kbps_est" af)) c.bitrate;
        total_audio_chunks = c.total_audio_chunks + 1;
        speech_chunks = count_speech sap c.speech_chunks;
      }

  -- `int(float(ts) // bucket_sec)`, where there are buckets and `ts` is a number
  abbrev pub bucket_at : F → Option F → Result (Option ℤ)
  bucket_at bucket_sec none = ok none
  bucket_at bucket_sec (some x) =
      if lt zero_f bucket_sec then (do b ← whole (floor_div x bucket_sec); ok (some b)) else ok none

  unfoldable pub bucket_index : F → Value → Result (Option ℤ)
  bucket_index bucket_sec ts = bucket_at bucket_sec (number ts)

  abbrev is_end : Fields → Bool
  is_end end = true
  is_end _ = false

  unfoldable pub face_features_of : Fields → Fields
  face_features_of content =
      let ff = dict_or_empty (get "face_features" content) in
      if is_end ff
      then dict_or_empty (get "face_features" (dict_or_empty (get "payload" content)))
      else ff

  abbrev pub is_false : Value → Bool
  is_false (bool b) = not b
  is_false _ = false

  abbrev is_true : Value → Bool
  is_true (bool b) = b
  is_true _ = false

  abbrev nonblank : Value → Option String
  nonblank (str s) = if is_blank s then none else some s
  nonblank _ = none

  abbrev text_value : Value → Option String
  text_value (str s) = some s
  text_value _ = none

  abbrev dict_value : Value → Option Fields
  dict_value (obj fs) = some fs
  dict_value _ = none

  unfoldable pub bump_bucket :
      {A : Type 0}
      → (A → A)
      → A
      → String
      → Option ℤ
      → Dict String (Dict ℤ A)
      → Dict String (Dict ℤ A)
  bump_bucket f empty pid none d = d
  bump_bucket f empty pid (some b) d =
      let own = lookup_or pid [] d in insert pid (insert b (f (lookup_or b empty own)) own) d

  -- `_MAX_EMO_EVENTS`, `_MAX_TEXT_EVENTS` and `_MAX_FACE_DBG_EVENTS`
  abbrev pub max_emotion_events : ℕ
  max_emotion_events = 30

  abbrev pub max_text_events : ℕ
  max_text_events = 30

  abbrev pub max_debug_events : ℕ
  max_debug_events = 40

  unfoldable pub note_emotion : String → String → Fields → Value → Option ℤ → Collected → Collected
  note_emotion pid dom ff ts b c = record c {
    participants = in_row pid (λ r. record r { last_emotion = some dom }) c.participants;
    emotion_counts =
        insert pid (bump dom true (lookup_or pid [] c.emotion_counts)) c.emotion_counts;
    emotion_events =
        append_below max_emotion_events pid
          (record { ts = number ts; emotion = dom; confidence = number (get "confidence" ff) })
          c.emotion_events;
    emotion_buckets = bump_bucket (bump dom true) [] pid b c.emotion_buckets;
  }

  abbrev pub with_emotion :
      F → String → Fields → Value → Option String → Collected → Result Collected
  with_emotion bucket_sec pid ff ts none c = ok c
  with_emotion bucket_sec pid ff ts (some dom) c = do
    b ← bucket_index bucket_sec ts
    ok (note_emotion pid dom ff ts b c)

  unfoldable pub on_face : F → String → Fields → Value → Collected → Result Collected
  on_face bucket_sec pid content ts c =
      let ff = face_features_of content in
      if is_false (get "face_detected" ff)
      then ok c
      else with_emotion bucket_sec pid ff ts (nonblank (get "dominant_emotion" ff)) c

  -- `_clamp_str`
  unfoldable pub clamp_str : ℕ → Value → Option String
  clamp_str max_len (str s) = if is_blank s then none else some (take_text max_len (strip s))
  clamp_str max_len _ = none

  abbrev add_item : TextItem → List TextItem → List TextItem
  add_item x xs = if ltb (length xs) 3 then xs ++ x ∷ [] else xs

  unfoldable pub note_text : String → TextItem → Value → Option ℤ → Collected → Collected
  note_text pid t ts b c = record c {
    participants =
        in_row pid (λ r. record r { last_transcript = some (take_text 180 t.text) }) c.participants;
    text_events =
        append_below max_text_events pid (record { ts = number ts; item = t }) c.text_events;
    text_buckets = bump_bucket (add_item t) [] pid b c.text_buckets;
  }

  abbrev pub with_text : F → String → Bool → Value → Option String → Collected → Result Collected
  with_text bucket_sec pid final ts none c = ok c
  with_text bucket_sec pid final ts (some t) c = do
    b ← bucket_index bucket_sec ts
    ok (note_text pid (record { text = t; final = final }) ts b c)

  unfoldable pub on_text : F → String → Fields → Value → Collected → Result Collected
  on_text bucket_sec pid content ts c =
      let payload = dict_or_empty (get "payload" content) in
      let final = get "transcript_final" payload in
      with_text bucket_sec pid (truthy final) ts
        (clamp_str 220 (or_else final (get "transcript_partial" payload))) c

  unfoldable pub count_reason :
      String → Option String → Dict String (Dict String ℕ) → Dict String (Dict String ℕ)
  count_reason pid none d = d
  count_reason pid (some r) d = insert pid (bump (strip r) true (lookup_or pid [] d)) d

  -- `int(v) if isinstance(v, (int, float)) else 0`
  unfoldable pub whole_or_zero : Value → Result ℤ
  whole_or_zero v = elim (number v) [ none ↦ ok (pos 0) | some x ↦ int_arg v ]

  unfoldable pub debug_event : Fields → Value → Result DebugEvent
  debug_event payload ts = do
    n ← whole_or_zero (get "landmarks_n" payload)
    ok (record {
      ts = number ts;
      gate_passed = is_true (get "gate_passed" payload);
      skip_reason = text_value (get "skip_reason" payload);
      region = dict_value (get "region" payload);
      landmarks_n = n;
      dominant_emotion = text_value (get "dominant_emotion" payload);
      model_confidence = number (get "model_confidence" payload);
    })

  unfoldable pub count_debug : String → Fields → Collected → Collected
  count_debug pid payload c = record c {
    debug_counts = bump pid true c.debug_counts;
    debug_passed = bump pid (is_true (get "gate_passed" payload)) c.debug_passed;
    skip_reasons = count_reason pid (nonblank (get "skip_reason" payload)) c.skip_reasons;
  }

  unfoldable pub on_debug : String → Fields → Value → Collected → Result Collected
  on_debug pid content ts c =
      let payload = dict_or_empty (get "payload" content) in
      let c' = count_debug pid payload c in
      if ltb (length (lookup_or pid [] c'.debug_events)) max_debug_events
      then (do
        e ← debug_event payload ts
        ok (record c' { debug_events = append_below max_debug_events pid e c'.debug_events }))
      else ok c'

  -- The branches of the loop.
  abbrev pub branch : F → Value → String → Fields → Value → Collected → Result Collected
  branch bucket_sec (str k) pid content ts c =
      if k == "audio"
      then ok (on_audio pid content c)
      else if k == "face"
      then on_face bucket_sec pid content ts c
      else if k == "text"
      then on_text bucket_sec pid content ts c
      else if k == "face_debug"
      then on_debug pid content ts c
      else ok c
  branch bucket_sec _ pid content ts c = ok c

  -- `f.get("kind") or "unknown"`
  abbrev pub kind_value : Fields → Value
  kind_value f = or_else (get "kind" f) (str "unknown")

  unfoldable pub collect_one : F → Fields → Collected → Result Collected
  collect_one bucket_sec f c =
      branch bucket_sec (kind_value f) (participant_of f) (dict_or_empty (get "data" f))
        (get "ts" f) (on_kind (kind_value f) c)

  unfoldable pub collect : F → List Fields → Collected → Result Collected
  collect bucket_sec [] c = ok c
  collect bucket_sec (f ∷ fs) c = do c' ← collect_one bucket_sec f c; collect bucket_sec fs c'
