-- ===== src/Face/Analysis/Process.antt =====
-- code/ai-gateway/modules/face/analysis.py, `FaceAnalysisPlugin.process`: the guards, the throttle,
-- and the work on a frame. A call of DeepFace stands for its thread and for the semaphore before it.
pub mod Kept
pub mod Outcome
pub mod Sends
pub mod Throttle
use Prim.Native.Char.{code}
use Prim.Native.String
use diplom_code.Base.{
  string_eq, nat_eq, int_eq, ◌≡◌, refl, ℕ, ℤ, pos, String, Bool, true, false, not, ◌&&◌, ◌||◌,
  Option, none, some, List, [], ◌∷◌, if◌then◌else◌, is_nil, eqb, ◌<>◌,
}
use diplom_code.Base.Dict.{Dict, lookup, lookup_or, insert}
use diplom_code.Py.{
  Runtime, null, str, Value, Fields, get, text_of, is_null, dict_or_empty, zero_f, Result, ok,
  raise,
}
use diplom_code.Act.{
  session_wants, World, Shared, Act, done, next, ◌>>=◌, ◌>>◌, lift, modify, count, observe,
  read_config, catch, int_arg,
}
use diplom_code.Config.{ModuleCfg, GatewayConfig, Disk}
use diplom_code.Sessions.{is_module_enabled_for_session}
use diplom_code.Face.Region.{Box}
use diplom_code.Face.Params.{FaceRuntimeParams, from_dict}
use diplom_code.Face.Schema.{build_face_features_guard}
use diplom_code.Face.Schema.Deepface.{
  Normalized, normalize_deepface_result, is_no_face_deepface_error,
}
use diplom_code.Face.Analysis.Landmarks.{Point}
use diplom_code.Face.Analysis.Emit.{Subject, emit_face_analysis, emit_legacy_emotion}
use diplom_code.Face.Analysis.Gate.{
  Frame, Mesh, FrameInputs, should_skip_blurry_frame, region_of, Verdict, low_confidence,
  small_region, passed, gate, find_mesh, behavior_of, tell_debug,
}

module _ ⦃rt : Runtime⦄ where
  open rt use {F, lt, sub}

  -- What is known of the module and of the message when the work on a frame starts.
  pub record Task : Type 0 where
    pub key : String
    pub provider : String
    pub version : String
    pub params : FaceRuntimeParams
    pub subject : Subject
    pub inputs : FrameInputs

  -- The end of the work: the messages, or why there are none.
  unfoldable pub conclude : Task → Normalized → Option Value → Verdict → Act (Unit {0})
  conclude t n behavior low_confidence = count "face_low_confidence_skipped"
  conclude t n behavior small_region = count "face_small_region_skipped"
  conclude t n behavior (passed features) = do
    emit_face_analysis t.version t.subject features behavior
    emit_legacy_emotion t.subject n.dominant_emotion n.confidence n.probs

  unfoldable pub judge : Task → Frame → Normalized → Act (Unit {0})
  judge t frame n = do
    let region = region_of n t.params frame
    let verdict = gate n t.params region
    (m, points) ← find_mesh t.params frame t.inputs
    let behavior = behavior_of t.provider n t.params verdict m
    tell_debug t.key t.subject n t.params frame region verdict points
    conclude t n behavior verdict

  unfoldable pub on_norm : Task → Frame → Option Normalized → Act (Unit {0})
  on_norm t frame none = count "face_invalid_result"
  on_norm t frame (some n) = judge t frame n

  unfoldable pub on_failure : Task → String → Act (Unit {0})
  on_failure t e =
      if t.params.emit_no_face_face_analysis && is_no_face_deepface_error e
      then (do
        emit_face_analysis t.version t.subject (build_face_features_guard "no_face") none
        count "face_no_face_event")
      else count "face_inference_errors"

  unfoldable pub on_inference : Task → Frame → Result Value → Act (Unit {0})
  on_inference t frame (raise e) = on_failure t e
  on_inference t frame (ok result) = do
    observe "face" (sub t.inputs.finished_ms t.inputs.started_ms)
    norm ← lift (normalize_deepface_result result)
    on_norm t frame norm

  unfoldable pub on_frame : Task → Option Frame → Act (Unit {0})
  on_frame t none = count "face_decode_failed"
  on_frame t (some frame) =
      if should_skip_blurry_frame frame t.params.min_laplacian_var
      then count "face_blur_skipped"
      else on_inference t frame (t.inputs.deepface t.params frame)

  -- The body of the outer `try`, and its `except`.
  unfoldable pub analyze_frame : Task → String → Act (Unit {0})
  analyze_frame t image =
      catch (do frame ← lift (t.inputs.decode image); on_frame t frame)
        (λ e. count "face_inference_errors")

  -- `s.split(",", 1)[1]`, where there is a comma in `s`
  unfoldable pub after_comma : String → Option String
  after_comma String.[] = none
  after_comma (String.◌∷◌ c s) = if eqb (code c) 44 then some s else after_comma s

  abbrev image_text : Value → Option String
  image_text (str s) = after_comma s
  image_text v = none

  -- `f"{session_id}:{participant_id}"`
  unfoldable pub frame_key : Fields → String
  frame_key msg = text_of (get "session_id" msg) <> ":" <> text_of (get "participant_id" msg)

  -- The last inference for this participant was less than the interval ago.
  unfoldable pub too_soon : F → F → F → Bool
  too_soon min_interval now last = lt zero_f min_interval && lt (sub now last) min_interval

  unfoldable pub last_inference : String → World → F
  last_inference key w = lookup_or key zero_f w.1.last_inference_ts

  -- `mod.model or "emotion-v1"`
  abbrev pub face_version : ModuleCfg → String
  face_version config = if is_nil config.model then "emotion-v1" else config.model

  unfoldable pub task_of : Fields → FrameInputs → ModuleCfg → FaceRuntimeParams → Task
  task_of msg i config fp = record {
    key = frame_key msg;
    provider = config.provider;
    version = face_version config;
    params = fp;
    subject = record {
      session_id = get "session_id" msg;
      participant_id = get "participant_id" msg;
      timestamp = get "timestamp" msg;
      trace_id = i.trace_id;
      pushed_at = i.pushed_at;
    };
    inputs = i;
  }

  unfoldable pub note_inference : String → F → Act (Unit {0})
  note_inference key now =
      modify (λ s. record s { last_inference_ts = insert key now s.last_inference_ts })

  unfoldable pub throttle : Task → String → Act (Unit {0})
  throttle t image w =
      if too_soon t.params.min_interval_sec t.inputs.now (last_inference t.key w)
      then count "face_throttled" w
      else (note_inference t.key t.inputs.now >> analyze_frame t image) w

  unfoldable pub with_image :
      Fields → FrameInputs → ModuleCfg → FaceRuntimeParams → Option String → Act (Unit {0})
  with_image msg i config fp none = done tt
  with_image msg i config fp (some image) =
      if is_null (get "session_id" msg) || is_null (get "participant_id" msg) then done tt else (do
        allowed ← session_wants "face" msg
        if allowed then throttle (task_of msg i config fp) image else done tt)

  unfoldable pub with_config : Fields → FrameInputs → Option ModuleCfg → Act (Unit {0})
  with_config msg i none = done tt
  with_config msg i (some config) =
      if config.enabled
      then (do
        fp ← lift (from_dict config.params)
        with_image msg i config fp (image_text (get "frame" (dict_or_empty (get "payload" msg)))))
      else done tt

  -- `FaceAnalysisPlugin.process`
  unfoldable pub process_frame : Disk → Fields → FrameInputs → Act (Unit {0})
  process_frame d msg i = do cfg ← read_config d; with_config msg i (lookup "face" cfg)
