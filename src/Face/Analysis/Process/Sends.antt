-- ===== src/Face/Analysis/Process/Sends.antt =====
-- code/ai-gateway/modules/face/analysis.py and code/ai-gateway/hybrid_contract.py: the messages
-- that a frame leads to.
use diplom_code.Base.{
  string_eq, nat_eq, int_eq, ◌≡◌, refl, String, true, false, Option, none, some, is_blank, inl, inr,
  Bool-cases, arith,
}
use diplom_code.Py.{Runtime, Value, Fields, is_null}
use diplom_code.Act.{count, World}
use diplom_code.Act.Sent.{AllSent, sent_kept}
use diplom_code.Contracts.{
  analysis_envelope, has_required_envelope_fields, is_valid_face_behavior_v1,
}
use diplom_code.Hybrid.{validate_face_analysis}
use diplom_code.Hybrid.Accepted.{Accepted, validate_analysis}
use diplom_code.Face.Region.{Box}
use diplom_code.Face.Params.{FaceRuntimeParams}
use diplom_code.Face.Analysis.Emit.{Subject, message_of, face_payload, face_fields}
use diplom_code.Face.Analysis.Gate.{smoothed}
use diplom_code.Face.Analysis.Process.{Task, throttle, note_inference, too_soon, last_inference}
use diplom_code.Face.Analysis.Process.Kept.{Allows, analyze_frame-Kept}

module _ ⦃rt : Runtime⦄ where
  rest_allowed : Allows Accepted
  unfolding validate_analysis message_of
  rest_allowed = record { emotion = λ s payload. refl; debug = λ s payload. refl }

  -- The gate has looked at the behaviour.
  gate-valid :
      (version : String) (s : Subject) (features : Fields) (b : Value)
      → has_required_envelope_fields (face_payload version s features (some b)) ≡ true
      → is_valid_face_behavior_v1 b ≡ true
  unfolding has_required_envelope_fields face_payload face_fields analysis_envelope
  gate-valid version s features b gate = ground (arith, gate)

  face_message-Accepted :
      (version : String) (s : Subject) (features : Fields) (b : Option Value)
      → is_blank version ≡ false
      → is_blank s.trace_id ≡ false
      → has_required_envelope_fields (face_payload version s features b) ≡ true
      → Accepted (message_of "face_analysis" s (face_payload version s features b))
  unfolding validate_analysis message_of face_payload face_fields validate_face_analysis
      analysis_envelope has_required_envelope_fields is_blank
  face_message-Accepted version s features none h k gate = rw (h, k) refl
  face_message-Accepted version s features (some b) h k gate =
      let valid = gate-valid version s features b gate in
      elim (Bool-cases (is_null b)) [
        | inl absent ↦ rw (h, k, absent) refl
        | inr there ↦ rw (h, k, there, valid) refl
      ]

  smoothed-AllSent :
      (M : Fields → Type 0) (key : String) (fp : FaceRuntimeParams) (o : Option Box) (w : World)
      → AllSent M w
      → AllSent M (smoothed key fp o w).1
  unfolding smoothed
  smoothed-AllSent M key fp none w h = h
  smoothed-AllSent M key fp (some b) (g, s) h = h

  -- Where the version of the face module and the trace id are not blank, every message that a
  -- frame leads to is accepted by the validator for its type, whatever behaviour was found.
  pub throttle-Accepted :
      (t : Task) (image : String) (w : World)
      → is_blank t.version ≡ false
      → is_blank t.subject.trace_id ≡ false
      → AllSent Accepted w
      → AllSent Accepted (throttle t image w).1
  unfolding throttle count note_inference
  throttle-Accepted t image w h k sent =
      elim (Bool-cases (too_soon t.params.min_interval_sec t.inputs.now (last_inference t.key w))) [
        | inl soon ↦ rw soon sent
        | inr due ↦ rw due (
            analyze_frame-Kept (AllSent Accepted) Accepted (sent_kept Accepted) rest_allowed
              (λ key fp o w1 s. smoothed-AllSent Accepted key fp o w1 s) t image
              (λ features b gate. face_message-Accepted t.version t.subject features b h k gate)
              (note_inference t.key t.inputs.now w).1 sent)
      ]
