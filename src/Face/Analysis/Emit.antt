-- ===== src/Face/Analysis/Emit.antt =====
-- code/ai-gateway/modules/face/analysis.py: the three messages of the face module, `_emit_*`.
use diplom_code.Base.{
  string_eq, nat_eq, int_eq, ℤ, pos, String, Bool, ◌&&◌, Option, none, some, List, [], ◌∷◌, ◌++◌,
  if◌then◌else◌, length, map, ltb_ℤ, ◌+ℤ◌, is_empty, ◌/◌, negsuc,
}
use diplom_code.Base.Dict.{Dict}
use diplom_code.Py.{
  Runtime, null, bool, int, float, str, arr, obj, Value, Fields, fields, field, end, items, text_of,
  opt_str, set_field,
}
use diplom_code.Act.{Act, ◌>>=◌, ◌>>◌, lift, count, send, remember, int_arg}
use diplom_code.Contracts.{analysis_envelope, has_required_envelope_fields}
use diplom_code.Face.Region.{Box}
use diplom_code.Face.Schema.{with_field}
use diplom_code.Face.Analysis.Landmarks.{Point}

module _ ⦃rt : Runtime⦄ where
  open rt use {F, round_at}

  -- What all messages for one frame share.
  pub record Subject : Type 0 where
    pub session_id : Value
    pub participant_id : Value
    pub timestamp : Value
    pub trace_id : String
    pub pushed_at : F

  unfoldable pub message_of : String → Subject → Fields → Fields
  message_of kind s payload = fields (
      ("type", str kind)
      ∷ ("session_id", s.session_id)
      ∷ ("participant_id", s.participant_id)
      ∷ ("payload", obj payload)
      ∷ ("timestamp", s.timestamp)
      ∷ [])

  unfoldable pub push_for : String → Subject → Fields → Act (Unit {0})
  push_for kind s content = do
    sid ← lift (int_arg s.session_id)
    remember (record {
      session_id = sid;
      ts = s.pushed_at;
      kind = kind;
      participant_id = some (text_of s.participant_id);
      trace_id = some s.trace_id;
      content = content;
    })

  -- The features, and the behaviour where there is one.
  unfoldable pub face_fields : Fields → Option Value → Fields
  face_fields features behavior =
      field "face_features" (obj features) (with_field "face_behavior" behavior end)

  unfoldable pub face_payload : String → Subject → Fields → Option Value → Fields
  face_payload version s features behavior =
      analysis_envelope "face" version "partial" s.trace_id (face_fields features behavior)

  unfoldable pub send_face_analysis : Subject → Fields → Fields → Act (Unit {0})
  send_face_analysis s payload content = do
    send (message_of "face_analysis" s payload)
    count "face_analysis_sent"
    push_for "face" s content

  -- `_emit_face_analysis`
  unfoldable pub emit_face_analysis : String → Subject → Fields → Option Value → Act (Unit {0})
  emit_face_analysis version s features behavior =
      let payload = face_payload version s features behavior in
      if has_required_envelope_fields payload
      then send_face_analysis s payload (face_fields features behavior)
      else count "face_contract_invalid"

  abbrev prob_fields : Dict String F → Fields
  prob_fields [] = end
  prob_fields ((k, x) ∷ d) = field k (float x) (prob_fields d)

  -- `_emit_legacy_emotion`
  unfoldable pub emit_legacy_emotion : Subject → String → F → Dict String F → Act (Unit {0})
  emit_legacy_emotion s dominant confidence probs = do
    send (
        message_of "emotion" s (
          fields (
            ("emotion", str dominant)
            ∷ ("confidence", float confidence)
            ∷ ("probs", obj (prob_fields probs))
            ∷ [])))
    count "emotion_legacy_sent"

  abbrev pub point_at : ℤ → ℤ → Point
  point_at x y = record { x = x; y = y }

  -- `x // 2`
  abbrev half : ℤ → ℤ
  half (pos n) = pos (n / 2)
  half (negsuc n) = negsuc (n / 2)

  -- The corners of the region and its middle.
  unfoldable pub anchors : Box → List Point
  anchors b =
      point_at b.x b.y
      ∷ point_at (b.x +ℤ b.w) b.y
      ∷ point_at b.x (b.y +ℤ b.h)
      ∷ point_at (b.x +ℤ b.w) (b.y +ℤ b.h)
      ∷ point_at (b.x +ℤ half b.w) (b.y +ℤ half b.h)
      ∷ []

  abbrev point_value : Point → Value
  point_value p = obj (fields (("x", int p.x) ∷ ("y", int p.y) ∷ []))

  abbrev region_value : Option Box → Value
  region_value none = null
  region_value (some b) =
      obj (fields (("x", int b.x) ∷ ("y", int b.y) ∷ ("w", int b.w) ∷ ("h", int b.h) ∷ []))

  -- The region as it is shown: with positive sides, or not at all.
  unfoldable pub shown_region : Option Box → Option Box
  shown_region none = none
  shown_region (some b) = if ltb_ℤ (pos 0) b.w && ltb_ℤ (pos 0) b.h then some b else none

  unfoldable pub shown_landmarks : Option Box → List Point → List Point
  shown_landmarks none points = []
  shown_landmarks (some b) points = if is_empty points then anchors b else points

  -- What `_emit_face_debug` is told of the frame.
  pub record Debug : Type 0 where
    pub frame_w : ℤ
    pub frame_h : ℤ
    pub dominant : String
    pub model_confidence : F
    pub gate_passed : Bool
    pub skip_reason : Option String
    pub min_confidence : F
    pub region : Option Box
    pub landmarks : List Point

  abbrev debug_fields : Subject → Debug → List (String × Value) → Fields
  debug_fields s d points = fields (
      ("trace_id", str s.trace_id)
        ∷ ("frame_width", int d.frame_w)
        ∷ ("frame_height", int d.frame_h)
        ∷ ("region", region_value (shown_region d.region))
        ∷ points
      ++ ("dominant_emotion", str d.dominant)
        ∷ ("model_confidence", float (round_at 4 d.model_confidence))
        ∷ ("gate_passed", bool d.gate_passed)
        ∷ ("skip_reason", opt_str d.skip_reason)
        ∷ ("min_confidence", float d.min_confidence)
        ∷ [])

  unfoldable pub debug_payload : Subject → Debug → Fields
  debug_payload s d =
      let points = shown_landmarks (shown_region d.region) d.landmarks in
      debug_fields s d (("landmarks", arr (items (map point_value points))) ∷ [])

  -- The payload without its landmarks, but with their number.
  unfoldable pub slim_payload : Subject → Debug → Fields
  slim_payload s d =
      let points = shown_landmarks (shown_region d.region) d.landmarks in
      set_field "landmarks_n" (int (pos (length points))) (debug_fields s d [])

  -- `_emit_face_debug`
  unfoldable pub emit_face_debug : Subject → Debug → Act (Unit {0})
  emit_face_debug s d = do
    send (message_of "face_debug" s (debug_payload s d))
    count "face_debug_sent"
    push_for "face_debug" s (field "payload" (obj (slim_payload s d)) end)
