-- ===== src/Face/Analysis/Process/Outcome.antt =====
-- code/ai-gateway/modules/face/analysis.py: what is counted for a frame.
use diplom_code.Base.{
  string_eq, nat_eq, int_eq, ◌≡◌, refl, ℕ, pos, String, Bool, true, false, ◌&&◌, Option, none, some,
  List, [], ◌∷◌, inl, inr, Bool-cases, ◌+ℤ◌, if◌then◌else◌, ◌||◌, ap, ◌∙◌,
}
use diplom_code.Py.{Runtime, Value, Fields, Result, ok, raise}
use diplom_code.Act.{World, Act, next, count, send, observe, lift, rescue, int_arg}
use diplom_code.Act.Laws.{
  ok-count, total-count, Adds, next-Adds, total_of, total-shared, lift-Adds, shared-Adds, send-Adds,
  remember-Adds, observe-Adds, count-Adds, occurrences,
}
use diplom_code.Face.Region.{Box}
use diplom_code.Face.Params.{FaceRuntimeParams}
use diplom_code.Face.Schema.Deepface.{
  Normalized, normalize_deepface_result, is_no_face_deepface_error,
}
use diplom_code.Face.Analysis.Landmarks.{Point}
use diplom_code.Face.Analysis.Emit.{
  Subject, Debug, push_for, send_face_analysis, emit_face_analysis, face_payload,
  emit_legacy_emotion, emit_face_debug,
}
use diplom_code.Face.Analysis.Gate.{
  Frame, Mesh, FrameInputs, should_skip_blurry_frame, Verdict, low_confidence, small_region, passed,
  find_mesh, note_mesh, shown_box, tell_debug, smoothed,
}
use diplom_code.Face.Analysis.Process.{
  Task, conclude, judge, on_norm, on_failure, on_inference, on_frame, analyze_frame, throttle,
  too_soon, note_inference, last_inference,
}
use diplom_code.Contracts.{has_required_envelope_fields}
use diplom_code.Base.Dict.{Dict, lookup}

module _ ⦃rt : Runtime⦄ where
  -- The counters of the ways in which a frame may end.
  abbrev pub outcomes : List String
  outcomes =
      "face_throttled" ∷ "face_decode_failed" ∷ "face_blur_skipped" ∷ "face_no_face_event"
      ∷ "face_invalid_result" ∷ "face_low_confidence_skipped" ∷ "face_small_region_skipped"
      ∷ "emotion_legacy_sent" ∷ "face_inference_errors" ∷ []

  -- An action adds `n` to their sum, from any state.
  abbrev Counts : {A : Type 0} → ℕ → Act A → Type 0
  Counts n m = (w : World) → Adds outcomes n w (m w)

  then-Counts :
      {A B : Type 0} (n : ℕ) (m : Act A) (f : A → Act B)
      → Counts 0 m
      → ((a : A) → Counts n (f a))
      → Counts n (λ w. next (m w) f)
  then-Counts n m f h k w = next-Adds outcomes n w (m w) f (h w) (λ a w1. k a w1)

  if-Counts :
      {A : Type 0} (n : ℕ) (b : Bool) (m k : Act A)
      → Counts n m
      → Counts n k
      → Counts n (if b then m else k)
  if-Counts n true m k h l = h
  if-Counts n false m k h l = l

  push_for-Counts :
      (kind : String) (s : Subject) (content : Fields) → Counts 0 (push_for kind s content)
  unfolding push_for
  push_for-Counts kind s content =
      then-Counts 0 (lift (int_arg s.session_id)) _ (lift-Adds outcomes _)
        (λ sid. remember-Adds outcomes _)

  send_face_analysis-Counts :
      (s : Subject) (payload content : Fields) → Counts 0 (send_face_analysis s payload content)
  unfolding send_face_analysis
  send_face_analysis-Counts s payload content w =
      next-Adds outcomes 0 w (send _ w) _ (send-Adds outcomes _ w) (λ _ w1.
        next-Adds outcomes 0 w1 (count _ w1) _ (count-Adds outcomes "face_analysis_sent" w1)
          (λ _ w2. push_for-Counts "face" s content w2))

  emit_face_analysis-Counts :
      (version : String) (s : Subject) (features : Fields) (b : Option Value)
      → Counts 0 (emit_face_analysis version s features b)
  unfolding emit_face_analysis
  emit_face_analysis-Counts version s features b =
      if-Counts 0 (has_required_envelope_fields (face_payload version s features b)) _ _
        (send_face_analysis-Counts s _ _) (count-Adds outcomes "face_contract_invalid")

  emit_legacy_emotion-Counts :
      (s : Subject) (dominant : String) (x : rt.F) (probs : Dict String rt.F)
      → Counts 1 (emit_legacy_emotion s dominant x probs)
  unfolding emit_legacy_emotion
  emit_legacy_emotion-Counts s dominant x probs w =
      next-Adds outcomes 1 w (send _ w) _ (send-Adds outcomes _ w)
        (λ _ w1. count-Adds outcomes "emotion_legacy_sent" w1)

  emit_face_debug-Counts : (s : Subject) (d : Debug) → Counts 0 (emit_face_debug s d)
  unfolding emit_face_debug
  emit_face_debug-Counts s d w =
      next-Adds outcomes 0 w (send _ w) _ (send-Adds outcomes _ w) (λ _ w1.
        next-Adds outcomes 0 w1 (count _ w1) _ (count-Adds outcomes "face_debug_sent" w1)
          (λ _ w2. push_for-Counts "face_debug" s _ w2))

  smoothed-Counts :
      (key : String) (fp : FaceRuntimeParams) (o : Option Box) → Counts 0 (smoothed key fp o)
  unfolding smoothed
  smoothed-Counts key fp none (g, s) = shared-Adds {A = Option Box} outcomes (ok none) g s s
  smoothed-Counts key fp (some b) (g, s) =
      shared-Adds outcomes
        (ok (some (shown_box fp.debug_bbox_smooth_alpha (lookup key s.last_debug_bbox) b))) g s _

  tell_debug-Counts :
      (key : String) (s : Subject) (n : Normalized) (fp : FaceRuntimeParams) (frame : Frame)
      (region : Option Box) (v : Verdict) (points : List Point)
      → Counts 0 (tell_debug key s n fp frame region v points)
  unfolding tell_debug
  tell_debug-Counts key s n fp frame region v points =
      if-Counts 0 fp.emit_debug_face _ _
        (then-Counts 0 (smoothed key fp region) _ (smoothed-Counts key fp region)
          (λ shown. emit_face_debug-Counts s _))
        (lift-Adds outcomes (ok tt))

  note_mesh-Counts : (r : Result (Unit {0}) × (Option Mesh × List Point)) → Counts 0 (note_mesh r)
  note_mesh-Counts (ok _, found) w = lift-Adds outcomes (ok found) w
  note_mesh-Counts (raise e, found) w =
      next-Adds outcomes 0 w (count _ w) _ (count-Adds outcomes "face_mediapipe_errors" w)
        (λ _ w1. lift-Adds outcomes (ok found) w1)

  find_mesh-Counts :
      (fp : FaceRuntimeParams) (frame : Frame) (i : FrameInputs) → Counts 0 (find_mesh fp frame i)
  unfolding find_mesh
  find_mesh-Counts fp frame i =
      if-Counts 0 (fp.mediapipe_enabled && (fp.emit_debug_face || fp.emit_face_behavior)) _ _
        (note_mesh-Counts _) (lift-Adds {A = Option Mesh × List Point} outcomes (ok (none, [])))

  conclude-Counts :
      (t : Task) (n : Normalized) (b : Option Value) (v : Verdict) → Counts 1 (conclude t n b v)
  unfolding conclude
  conclude-Counts t n b low_confidence w = count-Adds outcomes "face_low_confidence_skipped" w
  conclude-Counts t n b small_region w = count-Adds outcomes "face_small_region_skipped" w
  conclude-Counts t n b (passed features) w =
      next-Adds outcomes 1 w (emit_face_analysis _ _ _ _ w) _
        (emit_face_analysis-Counts t.version t.subject features b w)
        (λ _ w1. emit_legacy_emotion-Counts t.subject n.dominant_emotion n.confidence n.probs w1)

  judge-Counts : (t : Task) (frame : Frame) (n : Normalized) → Counts 1 (judge t frame n)
  unfolding judge
  judge-Counts t frame n w =
      next-Adds outcomes 1 w (find_mesh t.params frame t.inputs w) _
        (find_mesh-Counts t.params frame t.inputs w)
        (λ (m, points) w1.
          next-Adds outcomes 1 w1 (tell_debug _ _ _ _ _ _ _ _ w1) _
            (tell_debug-Counts t.key t.subject n t.params frame _ _ points w1)
            (λ _ w2. conclude-Counts t n _ _ w2))

  on_norm-Counts : (t : Task) (frame : Frame) (o : Option Normalized) → Counts 1 (on_norm t frame o)
  unfolding on_norm
  on_norm-Counts t frame none = count-Adds outcomes "face_invalid_result"
  on_norm-Counts t frame (some n) = judge-Counts t frame n

  on_failure-Counts : (t : Task) (e : String) → Counts 1 (on_failure t e)
  unfolding on_failure
  on_failure-Counts t e =
      if-Counts 1 (t.params.emit_no_face_face_analysis && is_no_face_deepface_error e) _ _
        (then-Counts 1 (emit_face_analysis _ _ _ _) _
          (emit_face_analysis-Counts t.version t.subject _ none)
          (λ _. count-Adds outcomes "face_no_face_event"))
        (count-Adds outcomes "face_inference_errors")

  on_inference-Counts :
      (t : Task) (frame : Frame) (r : Result Value) → Counts 1 (on_inference t frame r)
  unfolding on_inference
  on_inference-Counts t frame (raise e) = on_failure-Counts t e
  on_inference-Counts t frame (ok result) =
      then-Counts 1 (observe "face" _) _ (observe-Adds outcomes "face" _) (λ _.
        then-Counts 1 (lift (normalize_deepface_result result)) _ (lift-Adds outcomes _)
          (λ norm. on_norm-Counts t frame norm))

  on_frame-Counts : (t : Task) (o : Option Frame) → Counts 1 (on_frame t o)
  unfolding on_frame
  on_frame-Counts t none = count-Adds outcomes "face_decode_failed"
  on_frame-Counts t (some frame) =
      if-Counts 1 (should_skip_blurry_frame frame t.params.min_laplacian_var) _ _
        (count-Adds outcomes "face_blur_skipped") (on_inference-Counts t frame _)

  -- One counter more, and no exception.
  abbrev Ends : World → Result (Unit {0}) × World → Type 0
  Ends w r = (r.0 ≡ ok tt) × (total_of outcomes r.1 ≡ total_of outcomes w +ℤ pos 1)

  count-Ends :
      (k : String) (w w0 : World)
      → occurrences k outcomes ≡ 1
      → total_of outcomes w ≡ total_of outcomes w0
      → Ends w0 (count k w)
  count-Ends k w w0 once same = (
    ap (λ r. r.0) (ok-count k w),
    total-count k outcomes w
        ∙ ap (λ n. total_of outcomes w +ℤ pos n) once
        ∙ ap (λ t. t +ℤ pos 1) same,
  )

  rescue-Ends :
      (w : World) (r : Result (Unit {0}) × World)
      → Adds outcomes 1 w r
      → Ends w (rescue r (λ e. count "face_inference_errors"))
  rescue-Ends w (ok tt, w') h = (refl, h)
  rescue-Ends w (raise e, w') h = count-Ends "face_inference_errors" w' w refl h

  analyze_frame-Ends : (t : Task) (image : String) (w : World) → Ends w (analyze_frame t image w)
  unfolding analyze_frame
  analyze_frame-Ends t image w = rescue-Ends w (next (t.inputs.decode image, w) (on_frame t)) (
      then-Counts 1 (lift (t.inputs.decode image)) (on_frame t) (lift-Adds outcomes _)
        (λ frame. on_frame-Counts t frame) w)

  -- Every frame that gets past the guards on its message adds exactly one to the sum of nine
  -- counters (throttled, not decoded, blurred, no face, invalid result, low confidence, small
  -- region, emotion sent, inference error), and lets no exception out, whatever the libraries, the
  -- store and the websocket do.
  pub throttle-Ends :
      (t : Task) (image : String) (w : World)
      → ((throttle t image w).0 ≡ ok tt)
        × (total_of outcomes (throttle t image w).1 ≡ total_of outcomes w +ℤ pos 1)
  unfolding throttle note_inference
  throttle-Ends t image w =
      elim (Bool-cases (too_soon t.params.min_interval_sec t.inputs.now (last_inference t.key w))) [
        | inl soon ↦ rw soon (count-Ends "face_throttled" w w refl refl)
        | inr due ↦
            let (done_well, one_more) =
              analyze_frame-Ends t image (note_inference t.key t.inputs.now w).1 in
            rw due (done_well, one_more ∙ ap (λ n. n +ℤ pos 1) (total-shared outcomes w.0 _ w.1))
      ]
