-- ===== src/Audio/Pipeline.antt =====
-- code/ai-gateway/modules/audio/pipeline.py: a chunk of audio, its features and its transcript.
pub mod Histories
pub mod Kept
pub mod Sends
use diplom_code.Base.{
  string_eq, ◌≡◌, refl, ℕ, ℤ, pos, String, Bool, true, false, not, ◌&&◌, ◌||◌, Option, none, some,
  List, [], ◌∷◌, ◌++◌, ◌<>◌, if◌then◌else◌, is_nil, is_empty, last_n,
}
use diplom_code.Base.Dict.{Dict, lookup, lookup_or, insert}
use diplom_code.Py.{
  Runtime, null, str, obj, Value, Fields, fields, field, end, get, truthy, number, text_of, is_null,
  dict_or_empty, zero_f, Result, ok, raise,
}
use diplom_code.Act.{
  session_wants, World, Shared, Act, done, next, ◌>>=◌, ◌>>◌, lift, modify, count, send, remember,
  observe, read_config, int_arg,
}
use diplom_code.Store.{Push}
use diplom_code.Config.{ModuleCfg, GatewayConfig, Disk}
use diplom_code.Contracts.{analysis_envelope, has_required_envelope_fields}
use diplom_code.Sessions.{is_module_enabled_for_session}
use diplom_code.Audio.Signal.{Numpy, Timing, extract_audio_features_safe}
use diplom_code.Text.Transcription.{Inputs, transcribe_and_emit}

module _ ⦃rt : Runtime⦄ where
  open rt use {F, lt, sub}

  -- What comes from outside while a chunk is handled: numpy and base64, the trace id, the clock
  -- when the chunk arrives, at both ends of the work on it and at the push, and what the
  -- transcription reads.
  pub record AudioInputs : Type 0 where
    pub numpy : Numpy
    pub trace_id : String
    pub now_ms : F
    pub started_ms : F
    pub finished_ms : F
    pub pushed_at : F
    pub text : Inputs

  abbrev pub max_intervals : ℕ
  max_intervals = 12

  abbrev pub max_energies : ℕ
  max_energies = 8

  -- `self._iat_ms[key].append(x)`, a deque with room for `n`
  unfoldable pub append_to : ℕ → String → F → Dict String (List F) → Dict String (List F)
  append_to n key x d = insert key (last_n n (lookup_or key [] d ++ x ∷ [])) d

  abbrev pub since : F → Option F → Option F
  since now none = none
  since now (some before) = some (sub now before)

  -- `f"{session_id}:{participant_id}"`
  unfoldable pub chunk_key : Fields → String
  chunk_key msg = text_of (get "session_id" msg) <> ":" <> text_of (get "participant_id" msg)

  abbrev pub with_interval : String → Option F → Shared → Shared
  with_interval key none s = s
  with_interval key (some iat) s = record s { iat_ms = append_to max_intervals key iat s.iat_ms }

  -- The chunk arrives: the time since the last one of its participant.
  unfoldable pub arrive : String → F → Act (Option F)
  arrive key now (g, s) =
      let iat = since now (lookup key s.last_chunk_ms) in
      let s' = record s { last_chunk_ms = insert key now s.last_chunk_ms } in
      (ok iat, (g, with_interval key iat s'))

  abbrev pub if_positive : Option F → Option F
  if_positive none = none
  if_positive (some x) = if lt zero_f x then some x else none

  abbrev pub unless_empty : List F → Option (List F)
  unless_empty xs = if is_empty xs then none else some xs

  unfoldable pub timing_of : String → Fields → Option F → Shared → Timing
  timing_of key payload iat s = record {
    inter_arrival_ms = iat;
    duration_ms_override = if_positive (number (get "timeslice_ms" payload));
    rms_history = unless_empty (lookup_or key [] s.rms_hist);
    iat_history_ms = lookup_or key [] s.iat_ms;
  }

  unfoldable pub chunk_features : String → Fields → Fields → Numpy → Option F → Act Fields
  chunk_features key payload params np iat (g, s) =
      (ok (extract_audio_features_safe np payload params (timing_of key payload iat s)), (g, s))

  abbrev pub with_energy : String → Option F → Shared → Shared
  with_energy key none s = s
  with_energy key (some x) s = record s { rms_hist = append_to max_energies key x s.rms_hist }

  unfoldable pub audio_message : Fields → String → String → Fields → Fields
  audio_message msg version trace_id features = fields (
      ("type", str "audio_analysis")
      ∷ ("session_id", get "session_id" msg)
      ∷ ("participant_id", get "participant_id" msg)
      ∷ (
        "payload",
        obj (
            analysis_envelope "audio" version "partial" trace_id
              (field "audio_features" (obj features) end)),
      )
      ∷ ("timestamp", get "timestamp" msg)
      ∷ [])

  unfoldable pub emit_audio : Fields → Fields → Fields → AudioInputs → Act (Unit {0})
  emit_audio msg out features i =
      if has_required_envelope_fields (dict_or_empty (get "payload" out))
      then (do
        send out
        sid ← lift (int_arg (get "session_id" msg))
        remember (record {
          session_id = sid;
          ts = i.pushed_at;
          kind = "audio";
          participant_id = some (text_of (get "participant_id" msg));
          trace_id = some i.trace_id;
          content = field "audio_features" (obj features) end;
        })
        count "audio_analysis_sent"
        observe "audio" (sub i.finished_ms i.started_ms))
      else count "audio_contract_invalid"

  -- `audio_mod.model or "audio-features-v2"`
  abbrev pub audio_version : ModuleCfg → String
  audio_version config = if is_nil config.model then "audio-features-v2" else config.model

  abbrev pub count_degraded : Fields → Act (Unit {0})
  count_degraded features =
      if truthy (get "degraded" features) then count "audio_features_degraded" else done tt

  unfoldable pub finish_chunk : Fields → AudioInputs → ModuleCfg → Fields → Act (Unit {0})
  finish_chunk msg i config features = do
    modify (with_energy (chunk_key msg) (number (get "energy_rms_norm" features)))
    count_degraded features
    emit_audio msg (audio_message msg (audio_version config) i.trace_id features) features i

  unfoldable pub analyze_chunk : Fields → AudioInputs → ModuleCfg → Act (Unit {0})
  analyze_chunk msg i config = do
    iat ← arrive (chunk_key msg) i.now_ms
    features ←
        chunk_features (chunk_key msg) (dict_or_empty (get "payload" msg)) config.params i.numpy iat
    finish_chunk msg i config features

  -- The module is configured and on, and the session has not switched it off.
  unfoldable pub when_wanted :
      String → Option ModuleCfg → Fields → (ModuleCfg → Act (Unit {0})) → Act (Unit {0})
  when_wanted name none msg work = done tt
  when_wanted name (some config) msg work =
      if config.enabled
      then (do wanted ← session_wants name msg; if wanted then work config else done tt)
      else done tt

  unfoldable pub transcribe_chunk : Fields → AudioInputs → ModuleCfg → Act (Unit {0})
  transcribe_chunk msg i config =
      transcribe_and_emit msg config (record (i.text) { trace_id = i.trace_id })

  unfoldable pub process_chunk : Fields → AudioInputs → GatewayConfig → Act (Unit {0})
  process_chunk msg i cfg = do
    when_wanted "audio" (lookup "audio" cfg) msg (analyze_chunk msg i)
    when_wanted "text" (lookup "text" cfg) msg (transcribe_chunk msg i)

  -- `AudioPipelinePlugin.process`
  unfoldable pub process_audio : Disk → Fields → AudioInputs → Act (Unit {0})
  process_audio d msg i = do
    cfg ← read_config d
    (if is_null (get "session_id" msg) || not (truthy (get "participant_id" msg))
        then done tt
        else process_chunk msg i cfg)
