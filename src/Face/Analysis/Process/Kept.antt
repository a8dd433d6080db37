-- ===== src/Face/Analysis/Process/Kept.antt =====
-- code/ai-gateway/modules/face/analysis.py: what the work on a frame leaves as it was, and what is
-- sent for it.
use diplom_code.Base.{
  string_eq, nat_eq, int_eq, ◌≡◌, refl, String, Bool, true, false, ◌&&◌, ◌||◌, Option, none, some,
  List, [], if◌then◌else◌,
}
use diplom_code.Py.{Runtime, Value, Fields, Result, ok, raise}
use diplom_code.Act.{World, Act, next, count, send, observe, lift, rescue, int_arg}
use diplom_code.Act.Keeps.{Kept, next-Kept}
use diplom_code.Face.Region.{Box}
use diplom_code.Face.Params.{FaceRuntimeParams}
use diplom_code.Face.Schema.Deepface.{
  Normalized, normalize_deepface_result, is_no_face_deepface_error,
}
use diplom_code.Face.Analysis.Landmarks.{Point}
use diplom_code.Face.Analysis.Emit.{
  Subject, Debug, push_for, send_face_analysis, emit_face_analysis, face_payload, message_of,
  emit_legacy_emotion, emit_face_debug, face_fields,
}
use diplom_code.Face.Analysis.Gate.{
  Frame, Mesh, FrameInputs, should_skip_blurry_frame, Verdict, low_confidence, small_region, passed,
  find_mesh, note_mesh, tell_debug, smoothed,
}
use diplom_code.Face.Analysis.Process.{
  Task, conclude, judge, on_norm, on_failure, on_inference, on_frame, analyze_frame,
}
use diplom_code.Contracts.{has_required_envelope_fields}
use diplom_code.Base.Dict.{Dict}

module _ ⦃rt : Runtime⦄ where
  -- The messages of the face module that are no face analysis.
  pub record Allows (M : Fields → Type 0) : Type 0 where
    pub emotion : (s : Subject) (payload : Fields) → M (message_of "emotion" s payload)
    pub debug : (s : Subject) (payload : Fields) → M (message_of "face_debug" s payload)

  -- Those that are, behind the gate.
  abbrev pub AllowsAnalysis : (Fields → Type 0) → Task → Type 0
  AllowsAnalysis M t =
      (features : Fields) (b : Option Value)
      → has_required_envelope_fields (face_payload t.version t.subject features b) ≡ true
      → M (message_of "face_analysis" t.subject (face_payload t.version t.subject features b))

  module _ (P : World → Type 0) (M : Fields → Type 0) (kept : Kept P M) (m : Allows M)
      (own : (key : String) (fp : FaceRuntimeParams) (o : Option Box) (w : World)
        → P w
        → P (smoothed key fp o w).1) where
    abbrev Keeps : {A : Type 0} → Act A → Type 0
    Keeps act = (w : World) → P w → P (act w).1

    then-Keeps :
        {A B : Type 0} (act : Act A) (f : A → Act B)
        → Keeps act
        → ((a : A) → Keeps (f a))
        → Keeps (λ w. next (act w) f)
    then-Keeps act f h k w p = next-Kept P (act w) f (h w p) (λ a w1. k a w1)

    if-Keeps :
        {A : Type 0} (b : Bool) (x y : Act A)
        → (b ≡ true → Keeps x)
        → Keeps y
        → Keeps (if b then x else y)
    if-Keeps true x y h k = h refl
    if-Keeps false x y h k = k

    lift-Keeps : {A : Type 0} (r : Result A) → Keeps (lift r)
    lift-Keeps r w p = p

    count-Keeps : (k : String) → Keeps (count k)
    count-Keeps k w p = kept.counting k w p

    send-Keeps : (msg : Fields) → M msg → Keeps (send msg)
    send-Keeps msg h w p = kept.sending msg w h p

    push_for-Keeps :
        (kind : String) (s : Subject) (content : Fields) → Keeps (push_for kind s content)
    unfolding push_for
    push_for-Keeps kind s content =
        then-Keeps (lift (int_arg s.session_id)) _ (lift-Keeps (int_arg s.session_id))
          (λ sid w p. kept.remembering _ w p)

    emit_face_analysis-Keeps :
        (t : Task) (features : Fields) (b : Option Value)
        → AllowsAnalysis M t
        → Keeps (emit_face_analysis t.version t.subject features b)
    unfolding emit_face_analysis send_face_analysis
    emit_face_analysis-Keeps t features b allowed =
        if-Keeps (has_required_envelope_fields (face_payload t.version t.subject features b)) _ _
          (λ complete. then-Keeps (send _) _ (send-Keeps _ (allowed features b complete)) (λ _.
            then-Keeps (count _) _ (count-Keeps "face_analysis_sent")
              (λ _. push_for-Keeps "face" t.subject (face_fields features b))))
          (count-Keeps "face_contract_invalid")

    emit_legacy_emotion-Keeps :
        (s : Subject) (dominant : String) (x : rt.F) (probs : Dict String rt.F)
        → Keeps (emit_legacy_emotion s dominant x probs)
    unfolding emit_legacy_emotion
    emit_legacy_emotion-Keeps s dominant x probs =
        then-Keeps (send _) _ (send-Keeps _ (m.emotion s _))
          (λ _. count-Keeps "emotion_legacy_sent")

    emit_face_debug-Keeps : (s : Subject) (d : Debug) → Keeps (emit_face_debug s d)
    unfolding emit_face_debug
    emit_face_debug-Keeps s d = then-Keeps (send _) _ (send-Keeps _ (m.debug s _)) (λ _.
        then-Keeps (count _) _ (count-Keeps "face_debug_sent")
          (λ _. push_for-Keeps "face_debug" s _))

    tell_debug-Keeps :
        (key : String) (s : Subject) (n : Normalized) (fp : FaceRuntimeParams) (frame : Frame)
        (region : Option Box) (v : Verdict) (points : List Point)
        → Keeps (tell_debug key s n fp frame region v points)
    unfolding tell_debug
    tell_debug-Keeps key s n fp frame region v points =
        if-Keeps fp.emit_debug_face _ _
          (λ _.
            then-Keeps (smoothed key fp region) _ (own key fp region)
              (λ shown. emit_face_debug-Keeps s _))
          (lift-Keeps (ok tt))

    note_mesh-Keeps : (r : Result (Unit {0}) × (Option Mesh × List Point)) → Keeps (note_mesh r)
    note_mesh-Keeps (ok _, found) = lift-Keeps (ok found)
    note_mesh-Keeps (raise e, found) =
        then-Keeps (count _) _ (count-Keeps "face_mediapipe_errors") (λ _. lift-Keeps (ok found))

    find_mesh-Keeps :
        (fp : FaceRuntimeParams) (frame : Frame) (i : FrameInputs) → Keeps (find_mesh fp frame i)
    unfolding find_mesh
    find_mesh-Keeps fp frame i =
        if-Keeps (fp.mediapipe_enabled && (fp.emit_debug_face || fp.emit_face_behavior)) _ _
          (λ _. note_mesh-Keeps _) (lift-Keeps {A = Option Mesh × List Point} (ok (none, [])))

    conclude-Keeps :
        (t : Task) (n : Normalized) (b : Option Value) (v : Verdict)
        → AllowsAnalysis M t
        → Keeps (conclude t n b v)
    unfolding conclude
    conclude-Keeps t n b low_confidence allowed = count-Keeps "face_low_confidence_skipped"
    conclude-Keeps t n b small_region allowed = count-Keeps "face_small_region_skipped"
    conclude-Keeps t n b (passed features) allowed =
        then-Keeps (emit_face_analysis _ _ _ _) _ (emit_face_analysis-Keeps t features b allowed)
          (λ _. emit_legacy_emotion-Keeps t.subject n.dominant_emotion n.confidence n.probs)

    judge-Keeps :
        (t : Task) (frame : Frame) (n : Normalized) → AllowsAnalysis M t → Keeps (judge t frame n)
    unfolding judge
    judge-Keeps t frame n allowed =
        then-Keeps (find_mesh t.params frame t.inputs) _ (find_mesh-Keeps t.params frame t.inputs)
          (λ (mesh, points).
            then-Keeps (tell_debug _ _ _ _ _ _ _ _) _
              (tell_debug-Keeps t.key t.subject n t.params frame _ _ points)
              (λ _. conclude-Keeps t n _ _ allowed))

    on_norm-Keeps :
        (t : Task) (frame : Frame) (o : Option Normalized)
        → AllowsAnalysis M t
        → Keeps (on_norm t frame o)
    unfolding on_norm
    on_norm-Keeps t frame none allowed = count-Keeps "face_invalid_result"
    on_norm-Keeps t frame (some n) allowed = judge-Keeps t frame n allowed

    on_failure-Keeps : (t : Task) (e : String) → AllowsAnalysis M t → Keeps (on_failure t e)
    unfolding on_failure
    on_failure-Keeps t e allowed =
        if-Keeps (t.params.emit_no_face_face_analysis && is_no_face_deepface_error e) _ _
          (λ _.
            then-Keeps (emit_face_analysis _ _ _ _) _ (emit_face_analysis-Keeps t _ none allowed)
              (λ _. count-Keeps "face_no_face_event"))
          (count-Keeps "face_inference_errors")

    on_inference-Keeps :
        (t : Task) (frame : Frame) (r : Result Value)
        → AllowsAnalysis M t
        → Keeps (on_inference t frame r)
    unfolding on_inference
    on_inference-Keeps t frame (raise e) allowed = on_failure-Keeps t e allowed
    on_inference-Keeps t frame (ok result) allowed =
        then-Keeps (observe "face" _) _ (kept.observing "face" _) (λ _.
          then-Keeps (lift (normalize_deepface_result result)) _
            (lift-Keeps (normalize_deepface_result result))
            (λ norm. on_norm-Keeps t frame norm allowed))

    on_frame-Keeps : (t : Task) (o : Option Frame) → AllowsAnalysis M t → Keeps (on_frame t o)
    unfolding on_frame
    on_frame-Keeps t none allowed = count-Keeps "face_decode_failed"
    on_frame-Keeps t (some frame) allowed =
        if-Keeps (should_skip_blurry_frame frame t.params.min_laplacian_var) _ _
          (λ _. count-Keeps "face_blur_skipped") (on_inference-Keeps t frame _ allowed)

    rescue-Keeps :
        (r : Result (Unit {0}) × World)
        → P r.1
        → P (rescue r (λ e. count "face_inference_errors")).1
    rescue-Keeps (ok tt, w) p = p
    rescue-Keeps (raise e, w) p = count-Keeps "face_inference_errors" w p

    pub analyze_frame-Kept :
        (t : Task) (image : String)
        → AllowsAnalysis M t
        → (w : World) → P w
        → P (analyze_frame t image w).1
    unfolding analyze_frame
    analyze_frame-Kept t image allowed w p =
        rescue-Keeps (next (t.inputs.decode image, w) (on_frame t)) (
          then-Keeps (lift (t.inputs.decode image)) (on_frame t)
            (lift-Keeps (t.inputs.decode image)) (λ o. on_frame-Keeps t o allowed) w p)
