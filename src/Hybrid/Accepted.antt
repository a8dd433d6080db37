-- ===== src/Hybrid/Accepted.antt =====
-- code/ai-gateway/hybrid_contract.py: the check of an analysis message of any kind.
use diplom_code.Base.{◌≡◌, if◌then◌else◌, true, false}
use diplom_code.Py.{Runtime, Fields, get, Result, ok}
use diplom_code.Hybrid.{
  validate_face_analysis, validate_audio_analysis, validate_text_analysis, validate_report_message,
  is_word,
}

module _ ⦃rt : Runtime⦄ where
  -- What the other side checks of a message, by its type.
  unfoldable pub validate_analysis : Fields → Result (Unit {0})
  validate_analysis msg =
      let kind = get "type" msg in
      if is_word "face_analysis" kind
      then validate_face_analysis msg
      else if is_word "audio_analysis" kind
      then validate_audio_analysis msg
      else if is_word "text_analysis" kind
      then validate_text_analysis msg
      else if is_word "analysis_report" kind
      then validate_report_message msg true
      else if is_word "analysis_report_partial" kind
      then validate_report_message msg false
      else ok tt

  abbrev pub Accepted : Fields → Type 0
  Accepted msg = validate_analysis msg ≡ ok tt
