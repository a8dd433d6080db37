-- ===== src/Report/Round/Sends.antt =====
-- code/ai-gateway/report_loop.py and hybrid_contract.py: the messages of a round of reports.
use diplom_code.Base.{
  string_eq, int_eq, nat_eq, ◌≡◌, ℤ, String, Bool, true, false, List, [], ◌∷◌, if◌then◌else◌,
  is_blank,
}
use diplom_code.Py.{Runtime, Value, Fields, get, truthy, dict_or_empty, Result, ok, raise}
use diplom_code.Act.{World, Act, next, count, send, lift, rescue, read_config}
use diplom_code.Act.Keeps.{next-Kept}
use diplom_code.Act.Sent.{AllSent, sent_kept, read-AllSent}
use diplom_code.Hybrid.Accepted.{Accepted, validate_analysis}
use diplom_code.Hybrid.Producers.{validate-build_report_ws_message}
use diplom_code.Report.Orchestrator.{
  build_report_ws_message, report_type, report_stage, is_report_substantial,
}
use diplom_code.Report.Stub.Render.{stub_fields}
use diplom_code.Report.Round.{
  RoundInputs, ReportCfg, generate_report, sanitize_report_shape, choose, judge_remote,
  resolve_report_body, with_quality, try_send, sent_metric, error_metric, emit_report, send_report,
  features_now, report_wanted, report_one, report_each, report_round, targets,
}

module _ ⦃rt : Runtime⦄ where
  -- Every message sent is accepted by the validator for its type.
  abbrev Fine : World → Type 0
  Fine = AllSent Accepted

  abbrev Keeps : {A : Type 0} → Act A → Type 0
  Keeps act = (w : World) → Fine w → Fine (act w).1

  then-Keeps :
      {A B : Type 0} (act : Act A) (f : A → Act B)
      → Keeps act
      → ((a : A) → Keeps (f a))
      → Keeps (λ w. next (act w) f)
  then-Keeps act f h k w p = next-Kept Fine (act w) f (h w p) (λ a w1. k a w1)

  if-Keeps : {A : Type 0} (b : Bool) (x y : Act A) → Keeps x → Keeps y → Keeps (if b then x else y)
  if-Keeps true x y h k = h
  if-Keeps false x y h k = k

  lift-Keeps : {A : Type 0} (r : Result A) → Keeps (lift r)
  lift-Keeps r w p = p

  count-Keeps : (k : String) → Keeps (count k)
  count-Keeps k w p = (sent_kept Accepted).counting k w p

  report_message-Accepted :
      (now : String) (sid : ℤ) (body : Fields) (source version trace_id : String) (config : Value)
      (final : Bool)
      → is_blank version ≡ false
      → is_blank trace_id ≡ false
      → Accepted (
          build_report_ws_message now sid body source version trace_id
            (report_type final)
            (report_stage final)
            config)
  unfolding validate_analysis build_report_ws_message
  report_message-Accepted now sid body source version trace_id config true h k =
      (validate-build_report_ws_message now sid body source version trace_id config true h k).0
  report_message-Accepted now sid body source version trace_id config false h k =
      (validate-build_report_ws_message now sid body source version trace_id config false h k).0

  choose-Keeps : (stub fusion sanitized : Fields) → Keeps (choose stub fusion sanitized)
  unfolding choose
  choose-Keeps stub fusion sanitized =
      if-Keeps (is_report_substantial sanitized) _ _
        (then-Keeps (count _) _ (count-Keeps "report_shape_validated") (λ _ w p. p))
        (then-Keeps (count _) _ (count-Keeps "report_remote_empty_fallback")
          (λ _. lift-Keeps {A = Fields × String} (ok (stub, "local_fallback"))))

  judge_remote-Keeps :
      (sid : ℤ) (stub fusion : Fields) (remote : Value)
      → Keeps (judge_remote sid stub fusion remote)
  unfolding judge_remote
  judge_remote-Keeps sid stub fusion remote =
      if-Keeps (truthy (get "report" (dict_or_empty remote))) _ _
        (then-Keeps (lift (sanitize_report_shape (get "report" (dict_or_empty remote)) sid)) _
          (lift-Keeps (sanitize_report_shape (get "report" (dict_or_empty remote)) sid))
          (λ sanitized. choose-Keeps stub fusion sanitized))
        (lift-Keeps {A = Fields × String} (ok (stub, "local_stub")))

  resolve-Keeps :
      (i : RoundInputs) (sid : ℤ) (features : List Fields) (url : String) (config : Value)
      (stage : String) (bucket_sec : rt.F)
      → Keeps (resolve_report_body i sid features url config stage bucket_sec)
  unfolding resolve_report_body
  resolve-Keeps i sid features url config stage bucket_sec =
      then-Keeps (lift (stub_fields sid features bucket_sec)) _
        (lift-Keeps (stub_fields sid features bucket_sec))
        (λ stub.
          let r =
            generate_report i url sid features config stage (dict_or_empty (get "fusion" stub)) in
          then-Keeps (lift r) _ (lift-Keeps r) (λ remote. judge_remote-Keeps sid stub _ remote))

  rescue-Keeps :
      (k : String) (r : Result (Unit {0}) × World) → Fine r.1 → Fine (rescue r (λ e. count k)).1
  rescue-Keeps k (ok tt, w) p = p
  rescue-Keeps k (raise e, w) p = count-Keeps k w p

  try_send-Keeps : (final : Bool) (out : Fields) → Accepted out → Keeps (try_send final out)
  unfolding try_send
  try_send-Keeps final out h w p =
      rescue-Keeps (error_metric final) (next (send out w) (λ _. count (sent_metric final))) (
        next-Kept Fine (send out w) (λ _. count (sent_metric final))
          ((sent_kept Accepted).sending out w h p)
          (λ _ w1 p1. count-Keeps (sent_metric final) w1 p1))

  with_quality-Keeps : (body : Fields) → Keeps (with_quality body)
  unfolding with_quality
  with_quality-Keeps body (g, s) p = p

  report_wanted-Keeps : (sid : ℤ) → Keeps (report_wanted sid)
  unfolding report_wanted
  report_wanted-Keeps sid (g, s) p = p

  features_now-Keeps : (sid : ℤ) → Keeps (features_now sid)
  unfolding features_now
  features_now-Keeps sid (g, s) p = p

  module _ (i : RoundInputs) (cfg : ReportCfg) (named : is_blank cfg.version ≡ false)
      (traced : (sid : ℤ) → is_blank (i.trace_id sid) ≡ false) where
    emit_report-Keeps :
        (final : Bool) (sid : ℤ) (config : Value) (resolved : Fields × String)
        → Keeps (emit_report i cfg final sid config resolved)
    unfolding emit_report
    emit_report-Keeps final sid config (body, source) =
        then-Keeps (with_quality body) _ (with_quality-Keeps body) (λ full. try_send-Keeps final _ (
          report_message-Accepted i.now sid full source cfg.version (i.trace_id sid) config final
            named (traced sid)))

    send_report-Keeps :
        (final : Bool) (sid : ℤ) (features : List Fields)
        → Keeps (send_report i cfg final sid features)
    unfolding send_report
    send_report-Keeps final sid features =
        if-Keeps i.connected _ _
          (then-Keeps (read_config i.disk) _ (read-AllSent Accepted i.disk) (λ snap.
            then-Keeps (resolve_report_body i sid features cfg.url _ _ cfg.bucket_sec) _
              (resolve-Keeps i sid features cfg.url _ _ cfg.bucket_sec)
              (λ resolved. emit_report-Keeps final sid _ resolved)))
          (lift-Keeps (ok tt))

    report_one-Keeps : (final : Bool) (sid : ℤ) → Keeps (report_one i cfg final sid)
    unfolding report_one
    report_one-Keeps final sid =
        then-Keeps (report_wanted sid) _ (report_wanted-Keeps sid) (λ wanted.
          then-Keeps (features_now sid) _ (features_now-Keeps sid) (λ features.
            if-Keeps wanted _ _ (send_report-Keeps final sid features) (lift-Keeps (ok tt))))

    report_each-Keeps : (final : Bool) (sids : List ℤ) → Keeps (report_each i cfg final sids)
    unfolding report_each
    report_each-Keeps final [] = lift-Keeps (ok tt)
    report_each-Keeps final (sid ∷ sids) =
        then-Keeps (report_one i cfg final sid) _ (report_one-Keeps final sid)
          (λ _. report_each-Keeps final sids)

  -- A round of reports, partial or final, over whatever is in the store and whatever the remote
  -- model replies, sends only messages that the validator for their type accepts, where the version
  -- of the report module and the trace ids are not blank.
  pub report_round-Accepted :
      (i : RoundInputs) (cfg : ReportCfg) (final : Bool) (session_id : ℤ) (w : World)
      → is_blank cfg.version ≡ false
      → ((sid : ℤ) → is_blank (i.trace_id sid) ≡ false)
      → AllSent Accepted w
      → AllSent Accepted (report_round i cfg final session_id w).1
  unfolding report_round
  report_round-Accepted i cfg final session_id (g, s) named traced p =
      report_each-Keeps i cfg named traced final (targets session_id s.store) (g, s) p
