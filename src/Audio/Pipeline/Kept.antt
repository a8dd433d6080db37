-- ===== src/Audio/Pipeline/Kept.antt =====
-- code/ai-gateway/modules/audio/pipeline.py: what a chunk of audio leaves as it was, and what is
-- sent for it.
use diplom_code.Base.{
  if◌then◌else◌, ◌||◌, not, string_eq, ◌≡◌, refl, String, Bool, true, false, Option, none, some,
  inl, inr, Bool-cases,
}
use diplom_code.Base.Dict.{lookup}
use diplom_code.Py.{Runtime, Fields, get, truthy, ok, number, dict_or_empty, is_null}
use diplom_code.Act.{
  session_wants, World, Act, next, count, send, remember, int_arg, done, read_config,
}
use diplom_code.Act.Keeps.{Kept, next-Kept, next-Kept_of}
use diplom_code.Config.{ModuleCfg, Disk, GatewayConfig}
use diplom_code.Audio.Signal.{Numpy}
use diplom_code.Text.Transcription.{version_of, text_message, envelope_of}
use diplom_code.Text.Transcription.Kept.{transcribe_and_emit-Kept}
use diplom_code.Audio.Pipeline.{
  finish_chunk, count_degraded, AudioInputs, process_audio, process_chunk, when_wanted,
  analyze_chunk, transcribe_chunk, emit_audio, audio_message, arrive, chunk_features, with_energy,
  chunk_key, audio_version,
}
use diplom_code.Contracts.{has_required_envelope_fields}

module _ ⦃rt : Runtime⦄ where
  -- The attributes of the plugin change in two ways.
  pub record KeptByPlugin (P : World → Type 0) : Type 0 where
    pub arriving : (key : String) (now : rt.F) (w : World) → P w → P (arrive key now w).1
    pub noting : (key : String) (x : Option rt.F) (w : World) → P w → P (w.0, with_energy key x w.1)

  -- The module has this configuration when a message is handled.
  abbrev pub Now : Disk → World → String → ModuleCfg → Type 0
  Now d w name config =
      (cfg : GatewayConfig) × ((read_config d w).0 ≡ ok cfg) × (lookup name cfg ≡ some config)

  module _ (P : World → Type 0) (M : Fields → Type 0) (kept : Kept P M) (own : KeptByPlugin P) where
    emit_audio-Kept :
        (msg out features : Fields) (i : AudioInputs) (w : World)
        → M out
        → P w
        → P (emit_audio msg out features i w).1
    unfolding emit_audio
    emit_audio-Kept msg out features i w m h =
        elim (Bool-cases (has_required_envelope_fields (dict_or_empty (get "payload" out)))) [
          | inl complete ↦ rw complete (
              next-Kept {B = Unit {0}} P (send out w) _ (kept.sending out w m h) (λ _ w1 h1.
                next-Kept {B = Unit {0}} P (int_arg (get "session_id" msg), w1) _ h1
                  (λ sid w2 h2.
                    next-Kept {B = Unit {0}} P (remember _ w2) _ (kept.remembering _ w2 h2)
                      (λ _ w3 h3.
                        next-Kept {B = Unit {0}} P (count _ w3) _ (kept.counting _ w3 h3)
                          (λ _ w4 h4. kept.observing _ _ w4 h4)))))
          | inr missing ↦ rw missing (kept.counting _ w h)
        ]

    count_degraded-Kept : (features : Fields) (w : World) → P w → P (count_degraded features w).1
    count_degraded-Kept features w h = elim (Bool-cases (truthy (get "degraded" features))) [
      | inl degraded ↦ rw degraded (kept.counting _ w h)
      | inr whole ↦ rw whole h
    ]

    chunk_features-Kept :
        (key : String) (payload params : Fields) (np : Numpy) (iat : Option rt.F) (w : World)
        → P w
        → P (chunk_features key payload params np iat w).1
    unfolding chunk_features
    chunk_features-Kept key payload params np iat w h = h

    finish_chunk-Kept :
        (msg : Fields) (i : AudioInputs) (config : ModuleCfg) (features : Fields) (w : World)
        → M (audio_message msg (audio_version config) i.trace_id features)
        → P w
        → P (finish_chunk msg i config features w).1
    unfolding finish_chunk
    finish_chunk-Kept msg i config features w m h =
        let w1 : World =
          (w.0, with_energy (chunk_key msg) (number (get "energy_rms_norm" features)) w.1) in
        let out = audio_message msg (audio_version config) i.trace_id features in
        next-Kept P (count_degraded features w1) (λ _. emit_audio msg out features i)
          (count_degraded-Kept features w1 (own.noting _ _ w h))
          (λ _ w2 h2. emit_audio-Kept msg out features i w2 m h2)

    analyze_chunk-Kept :
        (msg : Fields) (i : AudioInputs) (config : ModuleCfg) (w : World)
        → ((features : Fields) → M (audio_message msg (audio_version config) i.trace_id features))
        → P w
        → P (analyze_chunk msg i config w).1
    unfolding analyze_chunk
    analyze_chunk-Kept msg i config w m h =
        let features_now =
          chunk_features (chunk_key msg) (dict_or_empty (get "payload" msg)) config.params
            i.numpy in
        let tell = finish_chunk msg i config in
        next-Kept P (arrive (chunk_key msg) i.now_ms w) (λ iat w1. next (features_now iat w1) tell)
          (own.arriving _ _ w h)
          (λ iat w1 h1.
            next-Kept P (features_now iat w1) tell (chunk_features-Kept _ _ _ _ iat w1 h1)
              (λ features w2 h2. finish_chunk-Kept msg i config features w2 (m features) h2))

    session_wants-Kept :
        (name : String) (msg : Fields) (w : World) → P w → P (session_wants name msg w).1
    unfolding session_wants
    session_wants-Kept name msg (g, s) h =
        next-Kept {B = Bool} P (int_arg (get "session_id" msg), (g, s)) _ h (λ _ w1 h1. h1)

    run-Kept :
        (b : Bool) (work : Act (Unit {0})) (w : World)
        → ((w' : World) → P w' → P (work w').1)
        → P w
        → P ((if b then work else done tt) w).1
    run-Kept true work w k h = k w h
    run-Kept false work w k h = h

    unless-Kept :
        (b : Bool) (work : Act (Unit {0})) (w : World)
        → ((w' : World) → P w' → P (work w').1)
        → P w
        → P ((if b then done tt else work) w).1
    unless-Kept true work w k h = h
    unless-Kept false work w k h = k w h

    when_wanted-Kept :
        (name : String) (o : Option ModuleCfg) (msg : Fields) (work : ModuleCfg → Act (Unit {0}))
        (w : World)
        → ((config : ModuleCfg) → o ≡ some config → (w' : World) → P w' → P (work config w').1)
        → P w
        → P (when_wanted name o msg work w).1
    unfolding when_wanted
    when_wanted-Kept name none msg work w k h = h
    when_wanted-Kept name (some config) msg work w k h =
        let run : Bool → Act (Unit {0}) = λ wanted. if wanted then work config else done tt in
        run-Kept config.enabled (λ w1. next (session_wants name msg w1) run) w
          (λ w1 h1.
            next-Kept P (session_wants name msg w1) run (session_wants-Kept name msg w1 h1)
              (λ wanted w2 h2. run-Kept wanted (work config) w2 (k config refl) h2))
          h

    process_chunk-Kept :
        (msg : Fields) (i : AudioInputs) (cfg : GatewayConfig) (w : World)
        → ((config : ModuleCfg) (features : Fields)
            → lookup "audio" cfg ≡ some config
            → M (audio_message msg (audio_version config) i.trace_id features))
        → ((config : ModuleCfg) (norm : Fields)
            → lookup "text" cfg ≡ some config
            → M (text_message msg (envelope_of (version_of config) i.trace_id norm)))
        → P w
        → P (process_chunk msg i cfg w).1
    unfolding process_chunk transcribe_chunk
    process_chunk-Kept msg i cfg w ma mt h =
        next-Kept {B = Unit {0}} P
          (when_wanted "audio" (lookup "audio" cfg) msg (analyze_chunk msg i) w) _
          (when_wanted-Kept "audio" (lookup "audio" cfg) msg (analyze_chunk msg i) w
            (λ config e w' h'.
              analyze_chunk-Kept msg i config w' (λ features. ma config features e) h')
            h)
          (λ _ w1 h1.
            when_wanted-Kept "text" (lookup "text" cfg) msg _ w1
              (λ config e w' h'.
                transcribe_and_emit-Kept P M kept msg config _ w' (λ norm. mt config norm e) h')
              h1)

    pub process_audio-Kept :
        (d : Disk) (msg : Fields) (i : AudioInputs) (w : World)
        → P (read_config d w).1
        → ((config : ModuleCfg) (features : Fields)
            → Now d w "audio" config
            → M (audio_message msg (audio_version config) i.trace_id features))
        → ((config : ModuleCfg) (norm : Fields)
            → Now d w "text" config
            → M (text_message msg (envelope_of (version_of config) i.trace_id norm)))
        → P w
        → P (process_audio d msg i w).1
    unfolding process_audio process_chunk transcribe_chunk
    process_audio-Kept d msg i w read ma mt h =
        next-Kept_of {B = Unit {0}} P (read_config d w) _ read (λ cfg w1 e h1.
          unless-Kept (is_null (get "session_id" msg) || not (truthy (get "participant_id" msg)))
            (process_chunk msg i cfg) w1
            (λ w2 h2.
              process_chunk-Kept msg i cfg w2 (λ config features c. ma config features (cfg, e, c))
                (λ config norm c. mt config norm (cfg, e, c)) h2)
            h1)
