-- ===== src/Face/Params.antt =====
-- code/ai-gateway/modules/face/params.py: the settings of the face module.
use diplom_code.Base.{ℤ, pos, String, Bool, false, max_ℤ}
use diplom_code.Py.{
  Runtime, bool, int, float, str, Fields, get_or, or_else, text_of, truthy, zero_f, Result, ok,
  ◌>>=◌,
}
use diplom_code.Act.{int_arg, float_arg}

module _ ⦃rt : Runtime⦄ where
  open rt use {F, lit}

  pub record FaceRuntimeParams : Type 0 where
    pub min_interval_sec : F
    pub min_confidence : F
    pub enforce_detection : Bool
    pub detector_backend : String
    pub align : Bool
    pub min_laplacian_var : F
    pub min_face_side_px : ℤ
    pub emit_no_face_face_analysis : Bool
    pub max_concurrent_inferences : ℤ
    pub emit_debug_face : Bool
    pub log_face_inference : Bool
    pub debug_bbox_smooth_alpha : F
    pub debug_max_face_area_frac : F
    pub emit_face_behavior : Bool
    pub face_behavior_schema_version : String
    pub mediapipe_enabled : Bool
    pub mediapipe_model_path : String
    pub mediapipe_model_url : String
    pub mediapipe_max_landmarks : ℤ

  flag : String → Fields → Bool
  flag k p = truthy (get_or k (bool false) p)

  -- `str(p.get(k, d) or d)`
  text_or : String → String → Fields → String
  text_or k d p = text_of (or_else (get_or k (str d) p) (str d))

  unfoldable pub from_dict : Fields → Result FaceRuntimeParams
  unfolding flag text_or
  from_dict p = do
    min_interval ← float_arg (get_or "min_interval_sec" (float (lit 2 1)) p)
    min_confidence ← float_arg (get_or "min_confidence" (float zero_f) p)
    min_laplacian ← float_arg (get_or "min_laplacian_var" (float zero_f) p)
    min_side ← int_arg (get_or "min_face_side_px" (int (pos 0)) p)
    max_concurrent ← int_arg (get_or "max_concurrent_inferences" (int (pos 2)) p)
    alpha ← float_arg (get_or "debug_bbox_smooth_alpha" (float (lit 35 2)) p)
    max_area ← float_arg (get_or "debug_max_face_area_frac" (float (lit 45 2)) p)
    max_landmarks ← int_arg (get_or "mediapipe_max_landmarks" (int (pos 120)) p)
    ok (record {
      min_interval_sec = min_interval;
      min_confidence = min_confidence;
      enforce_detection = flag "enforce_detection" p;
      detector_backend = text_or "detector_backend" "opencv" p;
      align = flag "align" p;
      min_laplacian_var = min_laplacian;
      min_face_side_px = min_side;
      emit_no_face_face_analysis = flag "emit_no_face_face_analysis" p;
      max_concurrent_inferences = max_ℤ (pos 1) max_concurrent;
      emit_debug_face = flag "emit_debug_face" p;
      log_face_inference = flag "log_face_inference" p;
      debug_bbox_smooth_alpha = alpha;
      debug_max_face_area_frac = max_area;
      emit_face_behavior = flag "emit_face_behavior" p;
      face_behavior_schema_version =
          text_of (get_or "face_behavior_schema_version" (str "face_behavior.v1") p);
      mediapipe_enabled = flag "mediapipe_enabled" p;
      mediapipe_model_path = text_or "mediapipe_model_path" "" p;
      mediapipe_model_url = text_or "mediapipe_model_url" "" p;
      mediapipe_max_landmarks = max_ℤ (pos 0) max_landmarks;
    })
