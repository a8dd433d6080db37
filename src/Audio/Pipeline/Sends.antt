-- ===== src/Audio/Pipeline/Sends.antt =====
-- code/ai-gateway/modules/audio/pipeline.py and code/ai-gateway/hybrid_contract.py: the messages
-- that a chunk of audio leads to.
use diplom_code.Base.{◌≡◌, refl, String, Option, none, some, false, is_blank}
use diplom_code.Py.{Runtime, Fields}
use diplom_code.Config.{Disk, ModuleCfg}
use diplom_code.Act.{World, Shared}
use diplom_code.Act.Sent.{AllSent, sent_kept, read-AllSent}
use diplom_code.Hybrid.Accepted.{Accepted, validate_analysis}
use diplom_code.Text.Transcription.{version_of}
use diplom_code.Text.Transcription.Kept.{text_message-Accepted}
use diplom_code.Audio.Pipeline.{
  AudioInputs, process_audio, audio_message, audio_version, arrive, with_energy, with_interval,
}
use diplom_code.Audio.Pipeline.Kept.{KeptByPlugin, process_audio-Kept, Now}
use diplom_code.Contracts.{analysis_envelope}
use diplom_code.Hybrid.{validate_audio_analysis}

module _ ⦃rt : Runtime⦄ where
  audio_message-Accepted :
      (msg features : Fields) (version trace_id : String)
      → is_blank version ≡ false
      → is_blank trace_id ≡ false
      → Accepted (audio_message msg version trace_id features)
  unfolding audio_message analysis_envelope validate_analysis validate_audio_analysis is_blank
  audio_message-Accepted msg features version trace_id h k = rw (h, k) refl

  with_interval-sent :
      (key : String) (o : Option rt.F) (s : Shared) → (with_interval key o s).sent ≡ s.sent
  with_interval-sent key none s = refl
  with_interval-sent key (some x) s = refl

  with_energy-sent :
      (key : String) (o : Option rt.F) (s : Shared) → (with_energy key o s).sent ≡ s.sent
  with_energy-sent key none s = refl
  with_energy-sent key (some x) s = refl

  sent_own : (M : Fields → Type 0) → KeptByPlugin (AllSent M)
  unfolding arrive
  sent_own M = record {
    arriving = λ key now w h. rw (with_interval-sent key _ _) h;
    noting = λ key x w h. rw (with_energy-sent key x w.1) h;
  }

  -- Where the versions of the audio and of the text module and the trace id are not blank, every
  -- message that the audio plugin sends is accepted by the validator for its type.
  pub process_audio-Accepted :
      (d : Disk) (msg : Fields) (i : AudioInputs) (w : World)
      → ((config : ModuleCfg) → Now d w "audio" config → is_blank (audio_version config) ≡ false)
      → ((config : ModuleCfg) → Now d w "text" config → is_blank (version_of config) ≡ false)
      → is_blank i.trace_id ≡ false
      → AllSent Accepted w
      → AllSent Accepted (process_audio d msg i w).1
  process_audio-Accepted d msg i w ha ht k h =
      process_audio-Kept (AllSent Accepted) Accepted (sent_kept Accepted) (sent_own Accepted) d msg
        i w (read-AllSent Accepted d w h)
        (λ config features now. audio_message-Accepted msg features _ i.trace_id (ha config now) k)
        (λ config norm now. text_message-Accepted msg norm _ i.trace_id (ht config now) k) h
