-- ===== src/Hybrid/Producers.antt =====
-- The messages that the gateway builds pass the checks of hybrid_contract.py.
use diplom_code.Base.{
  ◌≡◌, refl, ℤ, String, Bool, true, false, not, string_eq, nat_eq, int_eq, is_blank, ◌≢◌,
}
use diplom_code.Py.{Runtime, Value, Fields, ok}
use diplom_code.Hybrid.{validate_report_message}
use diplom_code.Report.Orchestrator.{build_report_ws_message, report_type, report_stage}

module _ ⦃rt : Runtime⦄ where
  -- A report message, partial or final, is accepted as what it is, if its model and its trace id
  -- are not blank, and never as the other kind.
  pub validate-build_report_ws_message :
      (now : String) (session_id : ℤ) (body : Fields) (source model_ver trace_id : String)
      (config : Value) (final : Bool)
      → is_blank model_ver ≡ false
      → is_blank trace_id ≡ false
      → let msg =
          build_report_ws_message now session_id body source model_ver trace_id
            (report_type final)
            (report_stage final)
            config in
        (validate_report_message msg final ≡ ok tt)
        × (validate_report_message msg (not final) ≢ ok tt)
  unfolding build_report_ws_message validate_report_message is_blank
  validate-build_report_ws_message now session_id body source model_ver trace_id config true h k =
      (rw (h, k) refl, λ e. cc)
  validate-build_report_ws_message now session_id body source model_ver trace_id config false h k =
      (rw (h, k) refl, λ e. cc)
