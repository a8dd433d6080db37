-- ===== src/Text/Transcription.antt =====
-- code/ai-gateway/modules/text/transcription.py: a chunk of audio sent to the speech service, and its
-- transcript sent on as a `text_analysis` message. Logging is left out.
pub mod Counters
pub mod Kept
pub mod Outcome
use Prim.Native.Char.{code}
use diplom_code.Base.{
  ◌≡◌, refl, ℕ, zero, suc, ◌+◌, ◌-◌, ◌≤◌, ◌<◌, ℤ, pos, negsuc, String, Bool, true, false, not, ◌&&◌,
  ◌||◌, Option, none, some, List, [], ◌∷◌, ◌++◌, ◌==◌, string_eq, nat_eq, int_eq, ltb, leb, eqb,
  if◌then◌else◌, arith, ap, sym, ◌∙◌, subst, inl, inr, ◌⊎◌, Bool-cases, Option-cases, length, map,
  All, filter, is_nil, is_blank, is_empty, strip, ◌≢◌, ◌↔◌, ◌+ℤ◌, ◌-ℤ◌, ◌*ℤ◌, ◌≤ℤ◌, ◌<ℤ◌, ltb_ℤ,
  leb_ℤ, eqb_ℤ, min_ℤ, max_ℤ, pos_part, neg_part, sub_ℕ, ◌*◌, ◌/◌, ◌^◌, ◌<>◌, last_n, take, drop,
  any, all, get_elem?, sort_by, length-append, last_n-append, take_text, length_text,
}
use diplom_code.Base.Dict.{Dict, keys, lookup, lookup_or, insert, lookup-insert, lookup_or-insert}
use diplom_code.Py.{
  Runtime, IsDouble, null, bool, int, float, str, arr, obj, nil, cons, end, field, Value, Items,
  Fields, get, get_or, has, fields, items, number, truthy, or_else, text_of, is_filled, is_str,
  is_dict, is_list, is_bool, is_null, dict_or_empty, zero_f, one_f, min_f, max_f, set_field, update,
  opt_str, opt_float, opt_int, Result, ok, raise,
}
use diplom_code.Act.{
  World, Shared, Act, done, fail, next, ◌>>=◌, ◌>>◌, lift, modify, count, count_all, send, remember,
  int_arg, float_arg,
}
use diplom_code.Speech.{Circuit, Reply, Limits, Call, transcribe_audio_chunk}
use diplom_code.Config.{ModuleCfg}
use diplom_code.Contracts.{analysis_envelope, has_required_envelope_fields}
use diplom_code.Text.{normalize_asr_response, has_transcript_content, partial_of, final_of}
use diplom_code.Text.Features.{enrich_text_features}
use diplom_code.Store.{Push}

-- `s.rstrip("/")`
unfoldable pub rstrip_slashes : String → String
rstrip_slashes String.[] = String.[]
rstrip_slashes (String.◌∷◌ c s) =
    let rest = rstrip_slashes s in
    if eqb (code c) 47 && is_nil rest then String.[] else String.◌∷◌ c rest

module _ ⦃rt : Runtime⦄ where
  open rt use {F}

  -- What comes from outside while a chunk is transcribed: the trace id, the replies of the speech
  -- service, the clock at both ends of the call and at the push, and what other threads do to the
  -- circuits meanwhile.
  pub record Inputs : Type 0 where
    pub trace_id : String
    pub replies : ℕ → Reply
    pub now : F
    pub later : F
    pub others : Circuit → Circuit
    pub pushed_at : F

  -- `await asyncio.to_thread(transcribe_audio_chunk, ...)`
  unfoldable pub call_service : String → Limits → Inputs → Act Value
  call_service key l i (g, s) =
      let call = transcribe_audio_chunk key l i.replies i.now i.later i.others s.circuit in
      (count_all call.counted >> lift call.result) (g, record s { circuit = call.circuit })

  -- `v if isinstance(v, str) else None`
  abbrev pub text_value : Value → Option String
  text_value (str s) = some s
  text_value _ = none

  unfoldable pub envelope_of : String → String → Fields → Fields
  envelope_of version trace_id norm =
      let final = get "transcript_final" norm in
      analysis_envelope "text" version (if truthy final then "final" else "partial") trace_id (
        fields (
          ("transcript_partial", get "transcript_partial" norm)
          ∷ ("transcript_final", final)
          ∷ ("language", get "language" norm)
          ∷ (
            "text_features",
            obj (
                enrich_text_features (text_value (get "transcript_partial" norm)) (text_value final)
                  (dict_or_empty (get "text_features" norm))),
          )
          ∷ []))

  unfoldable pub text_message : Fields → Fields → Fields
  text_message msg payload = fields (
      ("type", str "text_analysis")
      ∷ ("session_id", get "session_id" msg)
      ∷ ("participant_id", get "participant_id" msg)
      ∷ ("payload", obj payload)
      ∷ ("timestamp", get "timestamp" msg)
      ∷ [])

  abbrev pub push_of : String → Fields → Inputs → Fields → ℤ → Push
  push_of kind content i msg sid = record {
    session_id = sid;
    ts = i.pushed_at;
    kind = kind;
    participant_id = some (text_of (get "participant_id" msg));
    trace_id = some i.trace_id;
    content = content;
  }

  unfoldable pub emit_valid : Fields → Fields → Inputs → Act (Unit {0})
  emit_valid msg payload i = do
    send (text_message msg payload)
    sid ← lift (int_arg (get "session_id" msg))
    remember (push_of "text" (field "payload" (obj payload) end) i msg sid)
    count "text_analysis_sent"
    count "speech_transcribe_ok"

  -- The message is sent and remembered, if its envelope is complete.
  unfoldable pub emit_text : Fields → Fields → Inputs → Act (Unit {0})
  emit_text msg payload i =
      if has_required_envelope_fields payload
      then emit_valid msg payload i
      else count "text_contract_invalid"

  unfoldable pub on_transcript : Fields → String → Inputs → Fields → Act (Unit {0})
  on_transcript msg version i norm =
      if has_transcript_content norm
      then emit_text msg (envelope_of version i.trace_id norm) i
      else count "speech_asr_empty_transcript"

  unfoldable pub on_error : Fields → Act (Unit {0})
  on_error result = count_all (
      "text_analysis_errors"
      ∷ "speech_transcribe_failed"
      ∷ (if truthy (get "_circuit_open" result) then "speech_service_circuit_open" ∷ [] else []))

  unfoldable pub on_result : Fields → String → Inputs → Value → Act (Unit {0})
  on_result msg version i (obj result) =
      if truthy (get "_error" result)
      then on_error result
      else on_transcript msg version i (normalize_asr_response result)
  on_result msg version i _ = count "text_analysis_errors"

  -- `text_mod.model or "stub-v1"`
  abbrev pub version_of : ModuleCfg → String
  version_of text_mod = if is_nil text_mod.model then "stub-v1" else text_mod.model

  unfoldable pub service_url : ModuleCfg → String
  service_url text_mod =
      strip (text_of (or_else (get "speech_service_url" text_mod.params) (str "")))

  abbrev lift_next : {A B : Type 0} → Result A → (A → Result B) → Result B
  lift_next (ok a) f = f a
  lift_next (raise e) f = raise e

  -- The settings, read in the order of the code.
  unfoldable pub limits_of : Fields → Result Limits
  limits_of params = lift_next (float_arg (get_or "timeout_sec" (int (pos 15)) params)) λ _.
      lift_next (int_arg (get_or "retries" (int (pos 2)) params)) λ retries.
        lift_next (float_arg (get_or "backoff_sec" (float (rt.lit 5 1)) params)) λ backoff.
          lift_next (int_arg (get_or "circuit_failure_threshold" (int (pos 5)) params)) λ threshold.
            lift_next (float_arg (get_or "circuit_open_sec" (float (rt.lit 300 1)) params))
              λ open_sec. ok (record {
                retries = retries;
                backoff_sec = backoff;
                failure_threshold = threshold;
                open_sec = open_sec;
              })

  unfoldable pub ask_service : String → Fields → ModuleCfg → Inputs → Act (Unit {0})
  ask_service url msg text_mod i = do
    limits ← lift (limits_of text_mod.params)
    sid ← lift (int_arg (get "session_id" msg))
    result ← call_service (rstrip_slashes url) limits i
    on_result msg (version_of text_mod) i result

  -- `transcribe_and_emit_text_analysis`
  unfoldable pub transcribe_and_emit : Fields → ModuleCfg → Inputs → Act (Unit {0})
  transcribe_and_emit msg text_mod i =
      let url = service_url text_mod in
      if is_nil url then done tt else ask_service url msg text_mod i
