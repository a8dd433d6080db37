-- ===== src/Examples/Plugins.antt =====
-- The theorems about the plugins at concrete inputs.
use diplom_code.Base.{
  ◌≡◌, refl, ℤ, pos, true, false, none, some, List, [], ◌∷◌, string_eq, int_eq, nat_eq, is_blank,
  strip, lstrip, rstrip, is_space, ◌+ℤ◌, arith, subst, is_nil, Bool, ◌==◌, ◌⊎◌, if◌then◌else◌, sym,
  inr, ◌∙◌,
}
use diplom_code.Base.Dict.{lookup, lookup_or}
use diplom_code.Py.{
  null, int, float, str, obj, end, field, Fields, ok, raise, Surely, Value, Surely, ok-injective,
}
use diplom_code.Examples.Numbers.{thousandths, thousandths_laws}
use diplom_code.Act.{count, World, read_config}
use diplom_code.Act.Laws.{total_of}
use diplom_code.Act.Sent.{AllSent}
use diplom_code.Config.{
  ModuleCfg, GatewayConfig, Disk, load_gateway_config, config_snapshot, get_gateway_config,
}
use diplom_code.Config.Snapshot.{load-snapshot}
use diplom_code.Hybrid.Accepted.{Accepted}
use diplom_code.Speech.{answer}
use diplom_code.Text.Transcription.{Inputs, transcribe_and_emit, service_url, version_of}
use diplom_code.Text.Transcription.Outcome.{EndsOnce, transcribe_and_emit-EndsOnce}
use diplom_code.Audio.Signal.{Numpy, Timing, extract_audio_features_safe}
use diplom_code.Audio.Signal.Bounds.{RatiosInUnit, extract-RatiosInUnit}
use diplom_code.Audio.Pipeline.{AudioInputs, process_audio, audio_version}
use diplom_code.Audio.Pipeline.Kept.{Now}
use diplom_code.Audio.Pipeline.Histories.{HistoriesFit, process_audio-HistoriesFit}
use diplom_code.Audio.Pipeline.Sends.{process_audio-Accepted}
use diplom_code.Report.Stub.Collect.{collect, nothing_collected}
use diplom_code.Report.Stub.Totals.{AddsUp, collect-AddsUp}
use diplom_code.Report.Round.{RoundInputs, ReportCfg, report_round}
use diplom_code.Report.Round.Sends.{report_round-Accepted}
use diplom_code.Plugins.{gateway_step}
use diplom_code.Plugins.Named.{Named, NamedOnDisk}
use diplom_code.Plugins.Sends.{Good, gateway_step-Good}
use diplom_code.Face.Params.{FaceRuntimeParams}
use diplom_code.Face.Analysis.Landmarks.{
  Drawable, downsample_landmarks, downsample_landmarks-Drawable,
}
use diplom_code.Face.Analysis.Emit.{Subject}
use diplom_code.Face.Analysis.Process.{Task, throttle, too_soon, last_inference}
use diplom_code.Face.Analysis.Process.Throttle.{run, throttle-throttle}
use diplom_code.Face.Analysis.Process.Outcome.{throttle-Ends, outcomes}
use diplom_code.Face.Analysis.Gate.{FrameInputs}

abbrev audio_cfg : ModuleCfg
audio_cfg = record { enabled = true; provider = "local"; model = "audio-v2"; params = end }

abbrev text_cfg : ModuleCfg
text_cfg = record {
  enabled = true;
  provider = "whisper";
  model = "whisper-v1";
  params = field "speech_service_url" (str "http://speech") end;
}

abbrev cfg : GatewayConfig
cfg = ("audio", audio_cfg) ∷ ("text", text_cfg) ∷ []

abbrev disk : Disk
disk = record {
  env_path = "modules.json";
  is_file = λ _. true;
  mtime = λ _. some 1;
  json = λ _. ok (config_snapshot cfg);
  default_json = raise "FileNotFoundError";
}

load-snapshot_example : load_gateway_config disk ≡ ok cfg
load-snapshot_example = load-snapshot disk cfg refl refl refl

abbrev world : World
world = (
  record {
    sessions = [];
    counters = [];
    last_poll = pos 0;
    config = record { cfg = some cfg; track_path = none; track_mtime = none };
  },
  record {
    store = [];
    rings = [];
    circuit = [];
    sent = [];
    tried = 0;
    wire = λ _. none;
    last_chunk_ms = [];
    iat_ms = [];
    rms_hist = [];
    last_inference_ts = [];
    last_debug_bbox = [];
    quality_prev = none;
  },
)

abbrev inputs : Inputs
inputs = record {
  trace_id = "t-1";
  replies = λ _. answer (obj (field "transcript_final" (str "thanks") end));
  now = pos 1000;
  later = pos 2000;
  others = λ c. c;
  pushed_at = pos 2000;
}

abbrev payload : Fields
payload = field "chunk_base64" (str "AAEC") (field "timeslice_ms" (int (pos 3000)) end)

abbrev msg : Fields
msg = field "type" (str "audio") (
    field "session_id" (int (pos 7))
      (field "participant_id" (str "ann") (field "payload" (obj payload) end)))

transcribe_and_emit-EndsOnce_example :
    EndsOnce world (transcribe_and_emit msg text_cfg inputs world)
unfolding service_url strip lstrip rstrip is_space
transcribe_and_emit-EndsOnce_example = transcribe_and_emit-EndsOnce msg text_cfg inputs world refl

abbrev numpy : Numpy
numpy = record {
  base64_decode = λ _. some (1 ∷ 0 ∷ 255 ∷ 255 ∷ 3 ∷ 0 ∷ []);
  mean = λ _. pos 500;
  std = λ _. pos 100;
}

abbrev timing : Timing
timing = record {
  inter_arrival_ms = some (pos 2500000);
  duration_ms_override = none;
  rms_history = none;
  iat_history_ms = pos 2500000 ∷ [];
}

extract-RatiosInUnit_example :
    RatiosInUnit
      (extract_audio_features_safe numpy (field "chunk_base64" (str "AAEC") end) end timing)
extract-RatiosInUnit_example =
    extract-RatiosInUnit thousandths_laws numpy (field "chunk_base64" (str "AAEC") end) end timing
      refl

abbrev audio_inputs : AudioInputs
audio_inputs = record {
  numpy = numpy;
  trace_id = "t-1";
  now_ms = pos 5000;
  started_ms = pos 5000;
  finished_ms = pos 6000;
  pushed_at = pos 6000;
  text = inputs;
}

no_history : HistoriesFit world
unfolding lookup_or lookup
no_history = (λ key. ground arith, λ key. ground arith)

process_audio-HistoriesFit_example : HistoriesFit (process_audio disk msg audio_inputs world).1
process_audio-HistoriesFit_example =
    process_audio-HistoriesFit disk msg audio_inputs world no_history

the_audio_cfg : (config : ModuleCfg) → Now disk world "audio" config → audio_cfg ≡ config
unfolding read_config get_gateway_config lookup
the_audio_cfg config (g, e, c) = cc

the_text_cfg : (config : ModuleCfg) → Now disk world "text" config → text_cfg ≡ config
unfolding read_config get_gateway_config lookup
the_text_cfg config (g, e, c) = cc

audio_named :
    (config : ModuleCfg) → Now disk world "audio" config → is_blank (audio_version config) ≡ false
unfolding is_blank strip lstrip rstrip is_space
audio_named config now =
    subst (λ c. is_blank (audio_version c) ≡ false) (the_audio_cfg config now) refl

text_named :
    (config : ModuleCfg) → Now disk world "text" config → is_blank (version_of config) ≡ false
unfolding is_blank strip lstrip rstrip is_space
text_named config now = subst (λ c. is_blank (version_of c) ≡ false) (the_text_cfg config now) refl

process_audio-Accepted_example : AllSent Accepted (process_audio disk msg audio_inputs world).1
unfolding is_blank strip lstrip rstrip is_space
process_audio-Accepted_example =
    process_audio-Accepted disk msg audio_inputs world audio_named text_named refl tt

abbrev marks : List Fields
marks =
    field "x" (float (pos 500)) (field "y" (float (pos 250)) end)
    ∷ field "x" (float (pos 2000)) (field "y" (float (pos 250)) end)
    ∷ []

downsample_landmarks-Drawable_example :
    Surely
      (Drawable (pos 100) (pos 80) (pos 5))
      (downsample_landmarks marks (pos 100) (pos 80) (pos 5))
downsample_landmarks-Drawable_example =
    downsample_landmarks-Drawable marks (pos 100) (pos 80) (pos 5)
      ((refl, refl), ((refl, refl), tt)) (omega arith)

abbrev face_params : FaceRuntimeParams
face_params = record {
  min_interval_sec = pos 200;
  min_confidence = pos 0;
  enforce_detection = false;
  detector_backend = "opencv";
  align = false;
  min_laplacian_var = pos 0;
  min_face_side_px = pos 0;
  emit_no_face_face_analysis = false;
  max_concurrent_inferences = pos 2;
  emit_debug_face = true;
  log_face_inference = false;
  debug_bbox_smooth_alpha = pos 350;
  debug_max_face_area_frac = pos 450;
  emit_face_behavior = true;
  face_behavior_schema_version = "face_behavior.v1";
  mediapipe_enabled = false;
  mediapipe_model_path = "";
  mediapipe_model_url = "";
  mediapipe_max_landmarks = pos 120;
}

abbrev subject : Subject
subject = record {
  session_id = int (pos 7);
  participant_id = str "ann";
  timestamp = null;
  trace_id = "t-2";
  pushed_at = pos 9000;
}

abbrev found : Value
found = obj (
    field "dominant_emotion" (str "happy")
      (field "emotion" (obj (field "happy" (float (pos 90000)) end)) end))

-- The frame that comes at a time.
abbrev task_at : ℤ → Task
task_at now = record {
  key = "7:ann";
  provider = "deepface";
  version = "emotion-v1";
  params = face_params;
  subject = subject;
  inputs = record {
    trace_id = "t-2";
    now = now;
    started_ms = now;
    finished_ms = now;
    pushed_at = now;
    decode =
        λ _. ok (some (record { width = pos 100; height = pos 80; laplacian_variance = pos 9 }));
    deepface = λ _ _. ok found;
    mediapipe = λ _ _ _. raise "ImportError";
  };
}

-- A frame of another participant.
abbrev other_task : Task
other_task = record (task_at (pos 9100)) { key = "7:bob" }

throttle-Ends_example :
    ((throttle (task_at (pos 9000)) "aGk=" world).0 ≡ ok tt)
    × (total_of outcomes (throttle (task_at (pos 9000)) "aGk=" world).1
        ≡ total_of outcomes world +ℤ pos 1)
throttle-Ends_example = throttle-Ends (task_at (pos 9000)) "aGk=" world

throttle-throttle_example :
    let w' = run ((other_task, "aGk=") ∷ []) (throttle (task_at (pos 9000)) "aGk=" world).1 in
    throttle (task_at (pos 9150)) "aGk=" w' ≡ count "face_throttled" w'
unfolding too_soon last_inference lookup_or lookup
throttle-throttle_example =
    throttle-throttle (task_at (pos 9000)) (task_at (pos 9150)) "aGk=" "aGk="
      ((other_task, "aGk=") ∷ []) world refl (refl, tt) refl refl

abbrev features : List Fields
features =
    field "kind" (str "audio") (
      field "ts" (float (pos 5000)) (
        field "data"
          (obj (
            field "audio_features" (obj (field "speech_activity_proxy" (float (pos 900)) end)) end))
          end))
    ∷ field "kind" (str "text") end
    ∷ []

collect-AddsUp_example : Surely AddsUp (collect (pos 30000) features nothing_collected)
collect-AddsUp_example = collect-AddsUp (pos 30000) features ((inr refl, tt), ((tt, tt), tt))

abbrev round_inputs : RoundInputs
round_inputs = record {
  now = "2025-01-01T00:00:00";
  trace_id = λ _. "t-3";
  disk = disk;
  connected = true;
  post = λ _ _. raise "URLError";
}

abbrev report_settings : ReportCfg
report_settings = record { url = "http://model"; version = "report-v1"; bucket_sec = pos 30000 }

report_round-Accepted_example :
    AllSent Accepted (report_round round_inputs report_settings false (pos 7) world).1
unfolding is_blank strip lstrip rstrip is_space
report_round-Accepted_example =
    report_round-Accepted round_inputs report_settings false (pos 7) world refl (λ _. refl) tt

some-injective : {A : Type 0} {a b : A} → some a ≡ some b → a ≡ b
some-injective h = cc

abbrev Sound : ModuleCfg → Type 0
Sound m = (is_nil m.model ≡ true) ⊎ (is_blank m.model ≡ false)

entry_of_cfg :
    (a b : Bool) (m : ModuleCfg)
    → (if a then some audio_cfg else if b then some text_cfg else none) ≡ some m
    → Sound m
unfolding is_blank strip lstrip rstrip is_space
entry_of_cfg true b m e = subst Sound (some-injective e) (inr refl)
entry_of_cfg false true m e = subst Sound (some-injective e) (inr refl)
entry_of_cfg false false m e = cc

named : Named cfg
unfolding lookup
named name m e = entry_of_cfg ("audio" == name) ("text" == name) m e

named_disk : NamedOnDisk disk
named_disk c e = subst Named (ok-injective (sym (load-snapshot disk cfg refl refl refl) ∙ e)) named

abbrev frame_inputs : FrameInputs
frame_inputs = (task_at (pos 9000)).inputs

gateway_step-Good_example :
    Good (gateway_step (pos 5000) (pos 9000) disk frame_inputs audio_inputs msg world).1
unfolding is_blank strip lstrip rstrip is_space
gateway_step-Good_example =
    gateway_step-Good (pos 5000) (pos 9000) disk frame_inputs audio_inputs msg world named_disk refl
      refl (tt, λ c e. subst Named (some-injective e) named)
