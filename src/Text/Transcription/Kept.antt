-- ===== src/Text/Transcription/Kept.antt =====
-- code/ai-gateway/modules/text/transcription.py: what a chunk's transcription leaves as it was, and
-- what it sends.
use diplom_code.Base.{◌≡◌, refl, String, false, inl, inr, Bool-cases, is_blank, is_nil}
use diplom_code.Py.{Runtime, null, obj, Value, Fields, get, truthy}
use diplom_code.Act.{World, count_all, count, send, remember, int_arg}
use diplom_code.Act.Keeps.{Kept, next-Kept, count_all-Kept}
use diplom_code.Config.{ModuleCfg}
use diplom_code.Hybrid.Accepted.{Accepted, validate_analysis}
use diplom_code.Text.Transcription.{
  Inputs, transcribe_and_emit, ask_service, on_result, on_error, on_transcript, emit_text,
  emit_valid, call_service, text_message, envelope_of, service_url, version_of, limits_of,
}
use diplom_code.Contracts.{has_required_envelope_fields, analysis_envelope}
use diplom_code.Text.{has_transcript_content, normalize_asr_response}
use diplom_code.Speech.{Limits}
use diplom_code.Hybrid.{validate_text_analysis}

module _ ⦃rt : Runtime⦄ where
  module _ (P : World → Type 0) (M : Fields → Type 0) (kept : Kept P M) where
    emit_valid-Kept :
        (msg payload : Fields) (i : Inputs) (w : World)
        → M (text_message msg payload)
        → P w
        → P (emit_valid msg payload i w).1
    unfolding emit_valid
    emit_valid-Kept msg payload i w m h =
        next-Kept P (send _ w) _ (kept.sending _ w m h) (λ _ w1 h1.
          next-Kept P (int_arg (get "session_id" msg), w1) _ h1
            (λ sid w2 h2. next-Kept P (remember _ w2) _ (kept.remembering _ w2 h2) (λ _ w3 h3.
              next-Kept P (count _ w3) _ (kept.counting _ w3 h3)
                (λ _ w4 h4. kept.counting _ w4 h4))))

    emit_text-Kept :
        (msg payload : Fields) (i : Inputs) (w : World)
        → M (text_message msg payload)
        → P w
        → P (emit_text msg payload i w).1
    unfolding emit_text
    emit_text-Kept msg payload i w m h = elim (Bool-cases (has_required_envelope_fields payload)) [
      | inl complete ↦ rw complete (emit_valid-Kept msg payload i w m h)
      | inr missing ↦ rw missing (kept.counting _ w h)
    ]

    on_result-Kept :
        (msg : Fields) (version : String) (i : Inputs) (result : Value) (w : World)
        → ((norm : Fields) → M (text_message msg (envelope_of version i.trace_id norm)))
        → P w
        → P (on_result msg version i result w).1
    unfolding on_result on_error on_transcript
    on_result-Kept msg version i (obj result) w m h =
        elim (Bool-cases (truthy (get "_error" result))) [
          | inl failed ↦ rw failed (count_all-Kept P M kept _ w h)
          | inr without ↦
              rw without
                (elim (Bool-cases (has_transcript_content (normalize_asr_response result))) [
                  | inl some_text ↦ rw some_text (emit_text-Kept msg _ i w (m _) h)
                  | inr none_there ↦ rw none_there (kept.counting _ w h)
                ])
        ]
    on_result-Kept msg version i null w m h = kept.counting _ w h
    on_result-Kept msg version i _ w m h = kept.counting _ w h

    call_service-Kept :
        (key : String) (l : Limits) (i : Inputs) (w : World) → P w → P (call_service key l i w).1
    unfolding call_service
    call_service-Kept key l i (g, s) h =
        next-Kept P (count_all _ _) _ (count_all-Kept P M kept _ _ (kept.calling _ (g, s) h))
          (λ _ w1 h1. h1)

    pub transcribe_and_emit-Kept :
        (msg : Fields) (text_mod : ModuleCfg) (i : Inputs) (w : World)
        → ((norm : Fields)
            → M (text_message msg (envelope_of (version_of text_mod) i.trace_id norm)))
        → P w
        → P (transcribe_and_emit msg text_mod i w).1
    unfolding transcribe_and_emit ask_service
    transcribe_and_emit-Kept msg text_mod i w m h =
        elim (Bool-cases (is_nil (service_url text_mod))) [
          | inl unset ↦ rw unset h
          | inr there ↦ rw there (
              next-Kept P (limits_of text_mod.params, w) _ h
                (λ l w1 h1.
                  next-Kept P (int_arg (get "session_id" msg), w1) _ h1
                    (λ sid w2 h2.
                      next-Kept P (call_service _ l i w2) _ (call_service-Kept _ l i w2 h2)
                        (λ result w3 h3.
                          on_result-Kept msg (version_of text_mod) i result w3 m h3))))
        ]

  pub text_message-Accepted :
      (msg norm : Fields) (version trace_id : String)
      → is_blank version ≡ false
      → is_blank trace_id ≡ false
      → Accepted (text_message msg (envelope_of version trace_id norm))
  unfolding text_message envelope_of analysis_envelope validate_analysis validate_text_analysis
      is_blank
  text_message-Accepted msg norm version trace_id h k =
      elim (Bool-cases (truthy (get "transcript_final" norm))) [
        | inl final ↦ rw (final, h, k) refl
        | inr open_yet ↦ rw (open_yet, h, k) refl
      ]
