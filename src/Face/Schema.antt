-- ===== src/Face/Schema.antt =====
-- code/ai-gateway/modules/face/schema.py: the results of DeepFace and MediaPipe as the payloads
-- `face_features` and `face_behavior`. Scores by name are dicts with float values.
pub mod Matrix
pub mod Deepface
pub mod Behavior
use diplom_code.Base.{
  ◌≡◌, ℕ, ℤ, pos, String, Bool, true, false, not, ◌&&◌, ◌||◌, Option, none, some, List, [], ◌∷◌,
  ltb_ℤ, min_ℤ, ◌==◌, string_eq, is_nil, is_empty, length, eqb, if◌then◌else◌,
}
use diplom_code.Base.Dict.{Dict, lookup_or, lookup}
use diplom_code.Py.{
  Runtime, null, bool, int, float, str, arr, obj, Value, Fields, end, field, fields, zero_f, one_f,
  min_f, max_f, join_fields,
}
use diplom_code.Face.Schema.Matrix.{Angles, euler_from_matrix4x4_row_major}

module _ ⦃rt : Runtime⦄ where
  open rt use {F, lit, lt, le, add, sub, mul, div}

  -- `_clamp01`
  unfoldable pub clamp01 : F → F
  clamp01 v = max_f zero_f (min_f one_f v)

  -- `d[k] = v` for a key that `d` has not yet, done only if there is a value.
  abbrev pub with_field : String → Option Value → Fields → Fields
  with_field k none fs = fs
  with_field k (some v) fs = field k v fs

  abbrev pub filled : Option String → Option Value
  filled none = none
  filled (some s) = if is_nil s then none else some (str s)

  abbrev pub opt {ℓ} : {A : Type ℓ} → (A → Value) → Option A → Option Value
  opt f none = none
  opt f (some a) = some (f a)

  abbrev pub is_none {ℓ} : {A : Type ℓ} → Option A → Bool
  is_none none = true
  is_none (some a) = false

  -- `probs.get(k, 0.0) / 100.0 if probs else 0.0`, clamped
  unfoldable pub percent : String → Dict String F → F
  unfolding clamp01 lookup_or
  percent k probs =
      clamp01 (if is_empty probs then zero_f else div (lookup_or k zero_f probs) (lit 1000 1))

  -- The `quality` part of both behaviour payloads.
  unfoldable pub build_quality : F → Bool → Option String → Option F → Option ℤ → Fields
  build_quality confidence face_detected guard_reason frame_laplacian_var min_face_side_px =
      field "trackable" (bool (face_detected && is_none guard_reason)) (
        field "confidence" (float confidence) (
          with_field "guard_reason" (filled guard_reason) (
            with_field "frame_laplacian_var" (opt float frame_laplacian_var)
              (with_field "min_face_side_px" (opt int min_face_side_px) end))))

  abbrev pub face_count : Bool → Value
  face_count face_detected = int (pos (if face_detected then 1 else 0))

  unfoldable pub engagement : F → F → F → F → F → F → F
  unfolding clamp01
  engagement happy surprise neutral sad fear angry = clamp01 (
      sub
        (sub
          (sub (add (add (mul happy (lit 55 2)) (mul surprise (lit 15 2))) (mul neutral (lit 2 1)))
            (mul sad (lit 5 2)))
          (mul fear (lit 25 3)))
        (mul angry (lit 25 3)))

  unfoldable pub build_face_behavior_v1 :
      String → String → F → Dict String F → Bool → Option String → Option F → Option ℤ → Value
  build_face_behavior_v1 provider schema_version confidence probs face_detected guard_reason
        laplacian side =
      let happy = percent "happy" probs in
      let surprise = percent "surprise" probs in
      let neutral = percent "neutral" probs in
      let sad = percent "sad" probs in
      let fear = percent "fear" probs in
      let angry = percent "angry" probs in
      let eye_closed : Value = float (sub one_f neutral) in
      obj (
        fields (
          ("schema_version", str schema_version)
          ∷ ("provider", str provider)
          ∷ ("face_count", face_count face_detected)
          ∷ (
            "blendshapes",
            obj (
                fields (
                  ("smile", float happy)
                  ∷ ("jaw_open", float surprise)
                  ∷ ("eye_closed_left", eye_closed)
                  ∷ ("eye_closed_right", eye_closed)
                  ∷ [])),
          )
          ∷ ("engagement_proxy", float (engagement happy surprise neutral sad fear angry))
          ∷ ("quality", obj (build_quality confidence face_detected guard_reason laplacian side))
          ∷ []))

  -- `pick` of `build_face_behavior_v1_mediapipe`
  unfoldable pub pick : List String → Dict String F → Option F
  unfolding lookup clamp01
  pick [] blendshapes = none
  pick (n ∷ names) blendshapes =
      let rest = pick names blendshapes in
      elim (lookup n blendshapes) [ none ↦ rest | some v ↦ some (clamp01 v) ]

  abbrev pub or_zero : Option F → F
  or_zero none = zero_f
  or_zero (some x) = x

  -- The blendshapes that the payload names, those that are missing left out.
  pub record Blend : Type 0 where
    pub smile : Option F
    pub jaw_open : Option F
    pub eye_closed_left : Option F
    pub eye_closed_right : Option F
    pub brow_inner_up : Option F
    pub mouth_pucker : Option F

  unfoldable pub pick_blend : Dict String F → Blend
  pick_blend b = record {
    smile = pick ("smile" ∷ "mouthSmileLeft" ∷ "mouthSmileRight" ∷ []) b;
    jaw_open = pick ("jawOpen" ∷ []) b;
    eye_closed_left = pick ("eyeBlinkLeft" ∷ "eyeClosedLeft" ∷ []) b;
    eye_closed_right = pick ("eyeBlinkRight" ∷ "eyeClosedRight" ∷ []) b;
    brow_inner_up = pick ("browInnerUp" ∷ []) b;
    mouth_pucker = pick ("mouthPucker" ∷ []) b;
  }

  -- `out_blend`
  unfoldable pub blend_fields : Blend → Fields
  blend_fields b = with_field "smile" (opt float b.smile) (
      with_field "jaw_open" (opt float b.jaw_open) (
        with_field "eye_closed_left" (opt float b.eye_closed_left) (
          with_field "eye_closed_right" (opt float b.eye_closed_right) (
            with_field "brow_inner_up" (opt float b.brow_inner_up)
              (with_field "mouth_pucker" (opt float b.mouth_pucker) end)))))

  unfoldable pub head_pose : Option (List F) → Option Value
  unfolding euler_from_matrix4x4_row_major
  head_pose none = none
  head_pose (some m) = elim (euler_from_matrix4x4_row_major m) [
    | none ↦ none
    | some a ↦ some (
        obj (
          fields (
            ("yaw_deg", float a.yaw_deg)
            ∷ ("pitch_deg", float a.pitch_deg)
            ∷ ("roll_deg", float a.roll_deg)
            ∷ ("transform_matrix", arr (Matrix.float_items m))
            ∷ [])))
  ]

  unfoldable pub eye_state : Option F → Option F → Option Value
  eye_state none none = none
  eye_state left right = some (
      obj (
        fields (
          ("left_closed_prob", float (or_zero left))
          ∷ ("right_closed_prob", float (or_zero right))
          ∷ ("blink_detected", bool (lt (lit 6 1) (or_zero left) || lt (lit 6 1) (or_zero right)))
          ∷ [])))

  unfoldable pub blend_engagement : Blend → F
  unfolding clamp01
  blend_engagement b =
      let smile = or_zero b.smile in
      let jaw = or_zero b.jaw_open in
      let eye = max_f (or_zero b.eye_closed_left) (or_zero b.eye_closed_right) in
      clamp01 (
        add (sub (add (mul smile (lit 65 2)) (mul jaw (lit 15 2))) (mul eye (lit 35 2))) (lit 25 2))

  abbrev pub unless_end : Fields → Value → Option Value
  unless_end end v = none
  unless_end (field k w fs) v = some v

  unfoldable pub build_face_behavior_v1_mediapipe :
      String
      → F
      → Dict String F
      → Option (List F)
      → Bool
      → Option String
      → Option F
      → Option ℤ
      → Value
  build_face_behavior_v1_mediapipe schema_version confidence blendshapes matrix face_detected
        guard_reason laplacian side =
      let b = pick_blend blendshapes in
      let out_blend = blend_fields b in
      obj (
        field "schema_version" (str schema_version) (
          field "provider" (str "mediapipe_face_landmarker") (
            field "face_count" (face_count face_detected) (
              field "quality"
                (obj (build_quality confidence face_detected guard_reason laplacian side))
                (with_field "blendshapes" (unless_end out_blend (obj out_blend)) (
                  with_field "head_pose" (head_pose matrix) (
                    with_field "eye_state" (eye_state b.eye_closed_left b.eye_closed_right) (
                      with_field "engagement_proxy"
                        (unless_end out_blend (float (blend_engagement b))) end))))))))

  -- `min(region_w, region_h) < min_face_side_px`, only where both are known
  abbrev region_small : Option ℤ → Option ℤ → ℤ → Bool
  region_small (some w) (some h) side = ltb_ℤ (min_ℤ w h) side
  region_small _ _ side = false

  abbrev prob_fields : Dict String F → Fields
  prob_fields [] = end
  prob_fields ((k, x) ∷ d) = field k (float x) (prob_fields d)

  unfoldable pub build_face_features_positive :
      String → Dict String F → F → Option ℤ → Option ℤ → ℤ → Option Fields
  build_face_features_positive dominant probs confidence region_w region_h min_face_side_px =
      if ltb_ℤ (pos 0) min_face_side_px && region_small region_w region_h min_face_side_px
      then none
      else some (
          fields (
            ("dominant_emotion", str dominant)
            ∷ ("probs", obj (prob_fields probs))
            ∷ ("face_detected", bool true)
            ∷ ("confidence", float confidence)
            ∷ []))

  unfoldable pub build_face_features_guard : String → Fields
  build_face_features_guard reason = fields (
      ("face_detected", bool false)
      ∷ ("dominant_emotion", null)
      ∷ ("probs", obj end)
      ∷ ("confidence", float zero_f)
      ∷ ("guard_reason", str reason)
      ∷ [])
