-- ===== src/Report/Round.antt =====
-- code/ai-gateway/modules/report/orchestrator.py, report_loop.py and own_nn_client.py: a round of the
-- reports. A wake of the loop, and its cancellation at the end, are one round each.
pub mod Sends
use diplom_code.Base.{
  ◌<>◌, string_eq, int_eq, nat_eq, ◌≡◌, refl, ℕ, ℤ, pos, String, Bool, true, false, not, ◌&&◌, ◌||◌,
  Option, none, some, List, [], ◌∷◌, ◌==◌, if◌then◌else◌, is_nil, ltb_ℤ, starts, map,
}
use diplom_code.Base.Dict.{Dict, lookup, lookup_or, insert}
use diplom_code.Py.{
  Runtime, null, str, int, obj, arr, Value, Fields, fields, end, field, get, truthy, dict_or_empty,
  is_dict, set_field, text_of, or_else, get_or, float, Result, ok, raise, items,
}
use diplom_code.Act.{
  World, Shared, Act, done, next, ◌>>=◌, ◌>>◌, lift, modify, count, send, read_config, catch,
  float_arg,
}
use diplom_code.Metrics.{Counters}
use diplom_code.Config.{ModuleCfg, GatewayConfig, Disk, config_snapshot}
use diplom_code.Sessions.{is_module_enabled_for_session}
use diplom_code.Store.{Store, snapshot_session, session_ids}
use diplom_code.Report.Orchestrator.{
  is_report_substantial, build_report_ws_message, report_type, report_stage,
}
use diplom_code.Report.Quality.{augment_report_data_quality}
use diplom_code.Report.Sanitize.{sanitize_report_fields}
use diplom_code.Report.Stub.Render.{stub_fields}
use diplom_code.Text.Transcription.{rstrip_slashes}

module _ ⦃rt : Runtime⦄ where
  open rt use {F, lit}

  -- What comes from outside: the time in ISO format, the trace ids, the files, whether there is an
  -- open websocket, and the reply of the remote model to a request body, at a URL.
  pub record RoundInputs : Type 0 where
    pub now : String
    pub trace_id : ℤ → String
    pub disk : Disk
    pub connected : Bool
    pub post : String → Value → Result Value

  -- `except (urllib.error.URLError, json.JSONDecodeError, TimeoutError)`; an `HTTPError` is one of
  -- the first kind
  abbrev caught : String → Bool
  caught e = e == "URLError" || e == "HTTPError" || e == "JSONDecodeError" || e == "TimeoutError"

  abbrev null_if_caught : Result Value → Result Value
  null_if_caught (ok v) = ok v
  null_if_caught (raise e) = if caught e then ok null else raise e

  -- `generate_report`
  unfoldable pub generate_report :
      RoundInputs → String → ℤ → List Fields → Value → String → Fields → Result Value
  generate_report i url session_id features config stage fusion =
      if starts "http" url
      then null_if_caught (
          i.post (rstrip_slashes url <> "/v1/report") (
            obj (
              fields (
                ("session_id", int session_id)
                ∷ ("stage", str stage)
                ∷ ("features", arr (items (map obj features)))
                ∷ ("config_snapshot", config)
                ∷ ("fusion", obj fusion)
                ∷ []))))
      else ok null

  -- `sanitize_report_shape`
  unfoldable pub sanitize_report_shape : Value → ℤ → Result Fields
  sanitize_report_shape (obj raw) session_id = sanitize_report_fields raw session_id
  sanitize_report_shape _ session_id = stub_fields session_id [] (lit 300 1)

  abbrev with_fusion : Fields → Fields → Fields
  with_fusion fusion body =
      if is_dict (get "fusion" body) && truthy (get "fusion" body)
      then body
      else set_field "fusion" (obj fusion) body

  unfoldable pub choose : Fields → Fields → Fields → Act (Fields × String)
  choose stub fusion sanitized =
      if is_report_substantial sanitized
      then (do count "report_shape_validated"; done (with_fusion fusion sanitized, "remote"))
      else (do count "report_remote_empty_fallback"; done (stub, "local_fallback"))

  unfoldable pub judge_remote : ℤ → Fields → Fields → Value → Act (Fields × String)
  judge_remote session_id stub fusion remote =
      if truthy (get "report" (dict_or_empty remote))
      then (do
        sanitized ← lift (sanitize_report_shape (get "report" (dict_or_empty remote)) session_id)
        choose stub fusion sanitized)
      else done (stub, "local_stub")

  -- `resolve_report_body`
  unfoldable pub resolve_report_body :
      RoundInputs → ℤ → List Fields → String → Value → String → F → Act (Fields × String)
  resolve_report_body i session_id features url config stage bucket_sec = do
    stub ← lift (stub_fields session_id features bucket_sec)
    let fusion = dict_or_empty (get "fusion" stub)
    remote ← lift (generate_report i url session_id features config stage fusion)
    judge_remote session_id stub fusion remote

  -- The settings of the report module.
  pub record ReportCfg : Type 0 where
    pub url : String
    pub version : String
    pub bucket_sec : F

  unfoldable pub with_quality : Fields → Act Fields
  with_quality body (g, s) = (
    ok (augment_report_data_quality body g.counters s.quality_prev),
    (g, record s { quality_prev = some g.counters }),
  )

  unfoldable pub sent_metric : Bool → String
  sent_metric final = if final then "report_final_sent" else "report_partial_sent"

  unfoldable pub error_metric : Bool → String
  error_metric final = if final then "report_final_errors" else "report_partial_errors"

  unfoldable pub try_send : Bool → Fields → Act (Unit {0})
  try_send final out =
      catch (do send out; count (sent_metric final)) (λ e. count (error_metric final))

  unfoldable pub emit_report :
      RoundInputs → ReportCfg → Bool → ℤ → Value → Fields × String → Act (Unit {0})
  emit_report i cfg final session_id config (body, source) = do
    full ← with_quality body
    try_send final (
        build_report_ws_message i.now session_id full source cfg.version (i.trace_id session_id)
          (report_type final) (report_stage final) config)

  -- `_send_report`
  unfoldable pub send_report : RoundInputs → ReportCfg → Bool → ℤ → List Fields → Act (Unit {0})
  send_report i cfg final session_id features =
      if i.connected
      then (do
        snap ← read_config i.disk
        resolved ←
            resolve_report_body i session_id features cfg.url (config_snapshot snap)
              (report_stage final) cfg.bucket_sec
        emit_report i cfg final session_id (config_snapshot snap) resolved)
      else done tt

  unfoldable pub features_now : ℤ → Act (List Fields)
  features_now session_id (g, s) = (ok (snapshot_session session_id s.store), (g, s))

  unfoldable pub report_wanted : ℤ → Act Bool
  report_wanted session_id (g, s) =
      (ok (is_module_enabled_for_session (some session_id) "report" true g.sessions), (g, s))

  unfoldable pub report_one : RoundInputs → ReportCfg → Bool → ℤ → Act (Unit {0})
  report_one i cfg final session_id = do
    wanted ← report_wanted session_id
    features ← features_now session_id
    (if wanted then send_report i cfg final session_id features else done tt)

  unfoldable pub report_each : RoundInputs → ReportCfg → Bool → List ℤ → Act (Unit {0})
  report_each i cfg final [] = done tt
  report_each i cfg final (sid ∷ sids) = report_one i cfg final sid >> report_each i cfg final sids

  -- `[session_id] if session_id > 0 else store.session_ids()`
  unfoldable pub targets : ℤ → Store → List ℤ
  targets session_id store = if ltb_ℤ (pos 0) session_id then session_id ∷ [] else session_ids store

  -- One wake of `report_loop`, or its end (`final`).
  unfoldable pub report_round : RoundInputs → ReportCfg → Bool → ℤ → Act (Unit {0})
  report_round i cfg final session_id (g, s) =
      report_each i cfg final (targets session_id s.store) (g, s)

  -- The settings that `report_loop` reads before its first sleep.
  unfoldable pub report_cfg : ModuleCfg → Result ReportCfg
  report_cfg config =
      next_result (float_arg (get_or "interval_sec" (int (pos 30)) config.params)) λ _.
        next_result (float_arg (get_or "report_bucket_sec" (float (lit 300 1)) config.params))
          λ bucket_sec.
            next_result
              (float_arg (get_or "report_wake_floor_sec" (float (lit 50 1)) config.params))
              λ _. ok (record {
                url = text_of (or_else (get_or "own_nn_url" (str "") config.params) (str ""));
                version = if is_nil config.model then "report-v1" else config.model;
                bucket_sec = bucket_sec;
              })
    where
      next_result : {A B : Type 0} → Result A → (A → Result B) → Result B
      next_result (ok a) f = f a
      next_result (raise e) f = raise e
