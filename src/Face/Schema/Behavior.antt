-- ===== src/Face/Schema/Behavior.antt =====
-- The payloads of code/ai-gateway/modules/face/schema.py pass the check of contracts.py.
use diplom_code.Base.{
  ◌≡◌, refl, ℤ, String, Bool, true, false, Option, none, some, List, [], ◌∷◌, string_eq, nat_eq,
  int_eq, arith, length, is_blank,
}
use diplom_code.Base.Dict.{Dict, lookup}
use diplom_code.Py.{
  Runtime, IsDouble, null, float, str, obj, end, field, Value, Fields, zero_f, one_f,
}
use diplom_code.Py.{all_fields, all_items, length_items}
use diplom_code.Contracts.{
  is_number, is_valid_face_behavior_v1, valid_quality, valid_blendshapes, valid_transform,
  valid_head_pose, valid_eye_state, num_0_1, null_or,
}
use diplom_code.Face.Schema.Matrix.{Angles, euler_from_matrix4x4_row_major, float_items}
use diplom_code.Face.Schema.{
  clamp01, percent, build_quality, engagement, build_face_behavior_v1, pick, pick_blend,
  blend_fields, with_field, opt, head_pose, eye_state, blend_engagement,
  build_face_behavior_v1_mediapipe, face_count, or_zero, unless_end,
}

module _ ⦃rt : Runtime⦄ (double : IsDouble rt) where
  open rt use {F, le, lt, sub}

  abbrev InUnit : F → Type 0
  InUnit x = (le zero_f x ≡ true) × (le x one_f ≡ true)

  clamp01-InUnit : (v : F) → InUnit (clamp01 v)
  unfolding clamp01
  clamp01-InUnit v = ground (
    arith,
    double.lt→le zero_f v,
    double.lt→le v one_f,
    double.lt→le zero_f one_f,
    double.zero-le-zero,
    double.zero-le-one,
    double.one-le-one,
  )

  percent-InUnit : (k : String) (probs : Dict String F) → InUnit (percent k probs)
  unfolding percent
  percent-InUnit k probs = clamp01-InUnit _

  num_0_1-InUnit : (x : F) → InUnit x → num_0_1 (float x) ≡ true
  num_0_1-InUnit x h = ground arith

  engagement-InUnit : (a b c d e f : F) → InUnit (engagement a b c d e f)
  unfolding engagement
  engagement-InUnit a b c d e f = clamp01-InUnit _

  valid-build_quality :
      (confidence : F) (face_detected : Bool) (guard_reason : Option String) (laplacian : Option F)
      (side : Option ℤ)
      → valid_quality (obj (build_quality confidence face_detected guard_reason laplacian side))
        ≡ true
  unfolding valid_quality build_quality
  valid-build_quality confidence face_detected guard_reason laplacian side = ground arith

  -- The behaviour payload made from DeepFace scores passes the validator, whatever the scores, if the
  -- provider and the schema version are not blank.
  pub valid-build_face_behavior_v1 :
      (provider schema_version : String) (confidence : F) (probs : Dict String F)
      (face_detected : Bool) (guard_reason : Option String) (laplacian : Option F) (side : Option ℤ)
      → is_blank provider ≡ false
      → is_blank schema_version ≡ false
      → is_valid_face_behavior_v1 (
          build_face_behavior_v1 provider schema_version confidence probs face_detected guard_reason
            laplacian side)
        ≡ true
  unfolding is_valid_face_behavior_v1 build_face_behavior_v1 valid_blendshapes valid_head_pose
      valid_eye_state
  valid-build_face_behavior_v1 provider schema_version confidence probs face_detected guard_reason
        laplacian side hp hs =
      let p = λ (k : String). percent-InUnit k probs in
      let closed0 =
        double.zero-le-one_sub (percent "neutral" probs) (p "neutral").0 (p "neutral").1 in
      let closed1 =
        double.one_sub-le-one (percent "neutral" probs) (p "neutral").0 (p "neutral").1 in
      ground (
        arith,
        valid-build_quality confidence face_detected guard_reason laplacian side,
        p "happy",
        p "surprise",
        closed0,
        closed1,
        double.of_int_nonneg 0,
        double.of_int_nonneg 1,
        engagement-InUnit (percent "happy" probs) (percent "surprise" probs)
            (percent "neutral" probs) (percent "sad" probs) (percent "fear" probs)
            (percent "angry" probs),
      )

  abbrev OptInUnit : Option F → Type 0
  OptInUnit none = Unit {0}
  OptInUnit (some x) = InUnit x

  pick-InUnit : (names : List String) (d : Dict String F) → OptInUnit (pick names d)
  unfolding pick
  pick-InUnit [] d = tt
  pick-InUnit (n ∷ names) d =
      elim (lookup n d)
        as (λ o. OptInUnit (elim o [ none ↦ pick names d | some v ↦ some (clamp01 v) ])) [
          | none ↦ pick-InUnit names d
          | some v ↦ clamp01-InUnit v
        ]

  or_zero-InUnit : (o : Option F) → OptInUnit o → num_0_1 (float (or_zero o)) ≡ true
  or_zero-InUnit none h = ground (arith, double.zero-le-zero, double.zero-le-one)
  or_zero-InUnit (some x) h = num_0_1-InUnit x h

  abbrev AllUnit : Fields → Type 0
  AllUnit fs = all_fields (λ k v. num_0_1 v) fs ≡ true

  AllUnit-with_field :
      (k : String) (o : Option F) (fs : Fields)
      → OptInUnit o
      → AllUnit fs
      → AllUnit (with_field k (opt float o) fs)
  AllUnit-with_field k none fs h rest = rest
  AllUnit-with_field k (some x) fs h rest = rw (num_0_1-InUnit x h) rest

  AllUnit-blend_fields : (d : Dict String F) → AllUnit (blend_fields (pick_blend d))
  unfolding blend_fields pick_blend
  AllUnit-blend_fields d =
      let put = λ (k : String) (names : List String) (fs : Fields) (rest : AllUnit fs).
        AllUnit-with_field k (pick names d) fs (pick-InUnit names d) rest in
      put "smile" _ _ (
        put "jaw_open" _ _ (
          put "eye_closed_left" _ _
            (put "eye_closed_right" _ _ (put "brow_inner_up" _ _ (put "mouth_pucker" _ end refl)))))

  valid-float_items :
      (xs : List F)
      → (all_items is_number (float_items xs) ≡ true) × (length_items (float_items xs) ≡ length xs)
  valid-float_items [] = (refl, refl)
  valid-float_items (x ∷ xs) = ground (arith, valid-float_items xs)

  length-euler :
      (m : List F) {a : Angles} → euler_from_matrix4x4_row_major m ≡ some a → length m ≡ 16
  unfolding euler_from_matrix4x4_row_major
  length-euler m h = ground arith

  abbrev or_null : Option Value → Value
  or_null none = null
  or_null (some v) = v

  valid-head_pose : (m : Option (List F)) → valid_head_pose (or_null (head_pose m)) ≡ true
  unfolding valid_head_pose head_pose valid_transform
  valid-head_pose none = refl
  valid-head_pose (some m) = ground (arith, valid-float_items m, length-euler m)

  valid-eye_state :
      (l r : Option F)
      → OptInUnit l
      → OptInUnit r
      → valid_eye_state (or_null (eye_state l r)) ≡ true
  unfolding valid_eye_state eye_state
  valid-eye_state l r hl hr = ground (arith, or_zero-InUnit l hl, or_zero-InUnit r hr)

  module _ (schema_version : String) (count : Bool) (quality : Value)
      (blend pose eye score : Option Value) where
    abbrev payload : Value
    payload = obj (
        field "schema_version" (str schema_version) (
          field "provider" (str "mediapipe_face_landmarker") (
            field "face_count" (face_count count) (
              field "quality" quality (
                with_field "blendshapes" blend (
                  with_field "head_pose" pose
                    (with_field "eye_state" eye (with_field "engagement_proxy" score end))))))))

    valid-payload :
        is_blank schema_version ≡ false
        → valid_quality quality ≡ true
        → valid_blendshapes (or_null blend) ≡ true
        → valid_head_pose (or_null pose) ≡ true
        → valid_eye_state (or_null eye) ≡ true
        → null_or num_0_1 (or_null score) ≡ true
        → is_valid_face_behavior_v1 payload ≡ true
    unfolding is_valid_face_behavior_v1 is_blank
    valid-payload h1 h2 h3 h4 h5 h6 = ground (arith, double.of_int_nonneg 0, double.of_int_nonneg 1)

  valid-unless_end :
      (fs : Fields) → AllUnit fs → valid_blendshapes (or_null (unless_end fs (obj fs))) ≡ true
  unfolding valid_blendshapes
  valid-unless_end end h = refl
  valid-unless_end (field k v fs) h = h

  score-unless_end :
      (fs : Fields) (x : F) → InUnit x → null_or num_0_1 (or_null (unless_end fs (float x))) ≡ true
  score-unless_end end x h = refl
  score-unless_end (field k v fs) x h = num_0_1-InUnit x h

  -- The behaviour payload made from MediaPipe outputs passes the validator, whatever parts of them
  -- are missing, if the schema version is not blank.
  pub valid-build_face_behavior_v1_mediapipe :
      (schema_version : String) (confidence : F) (blendshapes : Dict String F)
      (matrix : Option (List F)) (face_detected : Bool) (guard_reason : Option String)
      (laplacian : Option F) (side : Option ℤ)
      → is_blank schema_version ≡ false
      → is_valid_face_behavior_v1 (
          build_face_behavior_v1_mediapipe schema_version confidence blendshapes matrix
            face_detected guard_reason laplacian side)
        ≡ true
  unfolding build_face_behavior_v1_mediapipe
  valid-build_face_behavior_v1_mediapipe schema_version confidence blendshapes matrix face_detected
        guard_reason laplacian side h =
      let b = pick_blend blendshapes in
      let quality : Value =
        obj (build_quality confidence face_detected guard_reason laplacian side) in
      valid-payload schema_version face_detected quality _ _ _ _ h
        (valid-build_quality confidence face_detected guard_reason laplacian side)
        (valid-unless_end (blend_fields b) (AllUnit-blend_fields blendshapes))
        (valid-head_pose matrix)
        (unfold pick_blend in
          valid-eye_state b.eye_closed_left b.eye_closed_right (pick-InUnit _ blendshapes)
            (pick-InUnit _ blendshapes))
        (score-unless_end (blend_fields b) (blend_engagement b)
          (unfold blend_engagement in clamp01-InUnit _))
