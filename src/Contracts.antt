-- ===== src/Contracts.antt =====
-- code/ai-gateway/contracts.py: the envelope of the analysis messages and the check of the
-- `face_behavior` extension. A trace id is an argument where the code draws a random one.
use diplom_code.Base.{
  String, Bool, true, false, not, ◌&&◌, ◌||◌, Option, none, some, [], ◌∷◌, eqb, ◌==◌, string_eq,
  is_blank, is_nil, all, if◌then◌else◌,
}
use diplom_code.Py.{
  Runtime, null, int, float, str, arr, obj, Value, Fields, number, is_bool, is_null, get, has,
  fields, update, all_items, all_fields, length_items, zero_f, one_f, is_str,
}

module _ ⦃rt : Runtime⦄ where
  open rt use {F, lt, le}

  unfoldable pub analysis_envelope : String → String → String → String → Fields → Fields
  analysis_envelope module_name version stage trace_id extra =
      update
        (fields (
          ("module", str module_name)
          ∷ ("version", str version)
          ∷ ("stage", str stage)
          ∷ ("trace_id", str trace_id)
          ∷ []))
        extra

  -- `isinstance(value, str) and value`
  abbrev pub is_text : Value → Bool
  is_text (str s) = not (is_nil s)
  is_text _ = false

  -- `_is_number`: a bool is no number here.
  abbrev pub is_number : Value → Bool
  is_number (int n) = true
  is_number (float x) = true
  is_number _ = false

  abbrev unit_range : Option F → Bool
  unit_range none = false
  unit_range (some x) = le zero_f x && le x one_f

  -- `_num_0_1`
  abbrev pub num_0_1 : Value → Bool
  num_0_1 v = is_number v && unit_range (number v)

  abbrev negative : Option F → Bool
  negative none = false
  negative (some x) = lt x zero_f

  -- `isinstance(v, str) and v.strip()`
  abbrev pub is_label : Value → Bool
  is_label (str s) = not (is_blank s)
  is_label _ = false

  abbrev pub null_or : (Value → Bool) → Value → Bool
  null_or p v = is_null v || p v

  unfoldable pub valid_quality : Value → Bool
  valid_quality (obj q) =
      is_bool (get "trackable" q)
      && null_or is_str (get "guard_reason" q)
      && null_or is_number (get "frame_laplacian_var" q)
      && null_or is_number (get "min_face_side_px" q)
      && null_or is_number (get "confidence" q)
  valid_quality _ = false

  unfoldable pub valid_blendshapes : Value → Bool
  valid_blendshapes null = true
  valid_blendshapes (obj b) = all_fields (λ k v. num_0_1 v) b
  valid_blendshapes _ = false

  unfoldable pub valid_transform : Value → Bool
  valid_transform null = true
  valid_transform (arr xs) = eqb (length_items xs) 16 && all_items is_number xs
  valid_transform _ = false

  unfoldable pub valid_head_pose : Value → Bool
  valid_head_pose null = true
  valid_head_pose (obj h) =
      null_or is_number (get "yaw_deg" h)
      && null_or is_number (get "pitch_deg" h)
      && null_or is_number (get "roll_deg" h)
      && valid_transform (get "transform_matrix" h)
  valid_head_pose _ = false

  unfoldable pub valid_eye_state : Value → Bool
  valid_eye_state null = true
  valid_eye_state (obj e) =
      null_or num_0_1 (get "left_closed_prob" e)
      && null_or num_0_1 (get "right_closed_prob" e)
      && null_or is_bool (get "blink_detected" e)
  valid_eye_state _ = false

  unfoldable pub is_valid_face_behavior_v1 : Value → Bool
  is_valid_face_behavior_v1 (obj fb) =
      is_label (get "schema_version" fb)
      && is_label (get "provider" fb)
      && is_number (get "face_count" fb)
      && not (negative (number (get "face_count" fb)))
      && valid_quality (get "quality" fb)
      && valid_blendshapes (get "blendshapes" fb)
      && valid_head_pose (get "head_pose" fb)
      && valid_eye_state (get "eye_state" fb)
      && null_or num_0_1 (get "engagement_proxy" fb)
  is_valid_face_behavior_v1 _ = false

  -- `payload.get("module") == "face"`
  abbrev pub is_text_value : String → Value → Bool
  is_text_value s (str t) = t == s
  is_text_value s _ = false

  unfoldable pub has_required_envelope_fields : Fields → Bool
  has_required_envelope_fields payload =
      all (λ key. is_text (get key payload)) ("module" ∷ "version" ∷ "stage" ∷ "trace_id" ∷ [])
      && (if is_text_value "face" (get "module" payload) && has "face_behavior" payload
          then is_valid_face_behavior_v1 (get "face_behavior" payload)
          else true)
