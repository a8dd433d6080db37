-- ===== src/Face/Analysis/Gate.antt =====
-- code/ai-gateway/modules/face/analysis.py: what is made of a frame on which a face was found.
-- DeepFace, OpenCV and MediaPipe are parameters.
use diplom_code.Base.{
  string_eq, nat_eq, int_eq, ℤ, pos, String, Bool, true, false, ◌&&◌, ◌||◌, Option, none, some,
  List, [], if◌then◌else◌, ltb_ℤ, is_nil, is_empty, not,
}
use diplom_code.Base.Dict.{Dict, lookup, insert}
use diplom_code.Py.{Runtime, Value, Fields, zero_f, Result, ok, raise}
use diplom_code.Act.{Act, done, ◌>>=◌, count}
use diplom_code.Face.Region.{Box, clamp_face_region, ema_bbox}
use diplom_code.Face.Params.{FaceRuntimeParams}
use diplom_code.Face.Schema.{
  build_face_features_positive, build_face_behavior_v1, build_face_behavior_v1_mediapipe,
}
use diplom_code.Face.Schema.Deepface.{Normalized}
use diplom_code.Face.Analysis.Landmarks.{Point, downsample_landmarks}
use diplom_code.Face.Analysis.Emit.{Subject, emit_face_debug}

module _ ⦃rt : Runtime⦄ where
  open rt use {F, lt, le}

  -- A decoded image: its sides, and the variance of its Laplacian.
  pub record Frame : Type 0 where
    pub width : ℤ
    pub height : ℤ
    pub laplacian_variance : F

  -- `MPFaceResult`
  pub record Mesh : Type 0 where
    pub face_count : ℤ
    pub landmarks0 : List Fields
    pub blendshapes0 : Dict String F
    pub transform_matrix0 : Option (List F)

  -- What comes from outside while a frame is handled: the clock, the trace id, and the libraries.
  pub record FrameInputs : Type 0 where
    pub trace_id : String
    pub now : F
    pub started_ms : F
    pub finished_ms : F
    pub pushed_at : F
    -- Base64 and `cv2.imdecode`; none is what is no image
    pub decode : String → Result (Option Frame)
    -- `DeepFace.analyze`
    pub deepface : FaceRuntimeParams → Frame → Result Value
    -- `detect_face_landmarks_and_blendshapes`, with the path and the URL of its model
    pub mediapipe : String → String → Frame → Result Mesh

  -- `should_skip_blurry_frame`
  unfoldable pub should_skip_blurry_frame : Frame → F → Bool
  should_skip_blurry_frame frame min_laplacian_var =
      if le min_laplacian_var zero_f then false else lt frame.laplacian_variance min_laplacian_var

  abbrev all_four : Option ℤ → Option ℤ → Option ℤ → Option ℤ → Option Box
  all_four (some x) (some y) (some w) (some h) = some (record { x = x; y = y; w = w; h = h })
  all_four _ _ _ _ = none

  abbrev clamped : Option Box → FaceRuntimeParams → Frame → Option Box
  clamped none fp frame = none
  clamped (some b) fp frame =
      clamp_face_region b frame.width frame.height fp.debug_max_face_area_frac (pos 8)

  -- `clamp_plain`
  unfoldable pub region_of : Normalized → FaceRuntimeParams → Frame → Option Box
  region_of n fp frame = clamped (all_four n.region_x n.region_y n.region_w n.region_h) fp frame

  abbrev width_of : Option Box → Option ℤ
  width_of none = none
  width_of (some b) = some b.w

  abbrev height_of : Option Box → Option ℤ
  height_of none = none
  height_of (some b) = some b.h

  -- Why a face is not told of, or the features that are.
  pub data Verdict : Type 0 where
    low_confidence : Verdict
    small_region : Verdict
    passed : Fields → Verdict

  abbrev verdict_of : Option Fields → Verdict
  verdict_of none = small_region
  verdict_of (some fs) = passed fs

  unfoldable pub gate : Normalized → FaceRuntimeParams → Option Box → Verdict
  gate n fp region =
      if lt n.confidence fp.min_confidence
      then low_confidence
      else verdict_of (
          build_face_features_positive n.dominant_emotion n.probs n.confidence (width_of region)
            (height_of region) fp.min_face_side_px)

  abbrev pub gate_passed : Verdict → Bool
  gate_passed (passed fs) = true
  gate_passed _ = false

  abbrev pub skip_reason : Verdict → Option String
  skip_reason low_confidence = some "low_confidence"
  skip_reason small_region = some "small_region"
  skip_reason (passed fs) = none

  abbrev with_points : Mesh → Result (List Point) → Result (Unit {0}) × (Option Mesh × List Point)
  with_points m (ok points) = (ok tt, (some m, points))
  with_points m (raise e) = (raise e, (some m, []))

  -- The call of MediaPipe: what is known after it, and whether an exception stopped it.
  unfoldable pub mesh_of :
      Result Mesh → FaceRuntimeParams → Frame → Result (Unit {0}) × (Option Mesh × List Point)
  mesh_of (raise e) fp frame = (raise e, (none, []))
  mesh_of (ok m) fp frame =
      if fp.emit_debug_face && not (is_empty m.landmarks0)
      then with_points m
          (downsample_landmarks m.landmarks0 frame.width frame.height fp.mediapipe_max_landmarks)
      else (ok tt, (some m, []))

  abbrev pub note_mesh :
      Result (Unit {0}) × (Option Mesh × List Point) → Act (Option Mesh × List Point)
  note_mesh (ok _, found) = done found
  note_mesh (raise e, found) = count "face_mediapipe_errors" >>= λ _. done found

  unfoldable pub find_mesh :
      FaceRuntimeParams → Frame → FrameInputs → Act (Option Mesh × List Point)
  find_mesh fp frame i =
      if fp.mediapipe_enabled && (fp.emit_debug_face || fp.emit_face_behavior)
      then note_mesh
          (mesh_of (i.mediapipe fp.mediapipe_model_path fp.mediapipe_model_url frame) fp frame)
      else done (none, [])

  abbrev side_of : FaceRuntimeParams → Option ℤ
  side_of fp = if ltb_ℤ (pos 0) fp.min_face_side_px then some fp.min_face_side_px else none

  -- `mod.provider or "deepface"`
  abbrev provider_or : String → String
  provider_or provider = if is_nil provider then "deepface" else provider

  unfoldable pub behavior_from :
      String → Normalized → FaceRuntimeParams → Verdict → Option Mesh → Value
  behavior_from provider n fp v none =
      build_face_behavior_v1 (provider_or provider) fp.face_behavior_schema_version n.confidence
        n.probs (gate_passed v) (skip_reason v) none (side_of fp)
  behavior_from provider n fp v (some m) =
      if ltb_ℤ (pos 0) m.face_count
      then build_face_behavior_v1_mediapipe fp.face_behavior_schema_version n.confidence
          m.blendshapes0 m.transform_matrix0 (gate_passed v) (skip_reason v) none (side_of fp)
      else build_face_behavior_v1 (provider_or provider) fp.face_behavior_schema_version
          n.confidence n.probs (gate_passed v) (skip_reason v) none (side_of fp)

  unfoldable pub behavior_of :
      String → Normalized → FaceRuntimeParams → Verdict → Option Mesh → Option Value
  behavior_of provider n fp v m =
      if fp.emit_face_behavior then some (behavior_from provider n fp v m) else none

  unfoldable pub shown_box : F → Option Box → Box → Box
  shown_box alpha prev b = if lt zero_f alpha then ema_bbox prev b alpha else b

  -- The box that is shown, smoothed over the frames of a participant, and kept for the next one.
  unfoldable pub smoothed : String → FaceRuntimeParams → Option Box → Act (Option Box)
  smoothed key fp none w = (ok none, w)
  smoothed key fp (some b) (g, s) =
      let shown = shown_box fp.debug_bbox_smooth_alpha (lookup key s.last_debug_bbox) b in
      (ok (some shown), (g, record s { last_debug_bbox = insert key shown s.last_debug_bbox }))

  unfoldable pub tell_debug :
      String
      → Subject
      → Normalized
      → FaceRuntimeParams
      → Frame
      → Option Box
      → Verdict
      → List Point
      → Act (Unit {0})
  tell_debug key s n fp frame region v points =
      if fp.emit_debug_face
      then (do
        shown ← smoothed key fp region
        emit_face_debug s (record {
          frame_w = frame.width;
          frame_h = frame.height;
          dominant = n.dominant_emotion;
          model_confidence = n.confidence;
          gate_passed = gate_passed v;
          skip_reason = skip_reason v;
          min_confidence = fp.min_confidence;
          region = shown;
          landmarks = points;
        }))
      else done tt
