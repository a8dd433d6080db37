-- ===== src/Asr/Stream.antt =====
-- code/speech-service/main.py: the endpoint that transcribes one chunk of a stream, with the state of
-- the streams, `_stream_state`.
pub mod Repeats
use diplom_code.Base.{
  ◌≡◌, refl, ℕ, zero, suc, ◌+◌, ◌-◌, ◌≤◌, ◌<◌, ℤ, pos, negsuc, String, Bool, true, false, not, ◌&&◌,
  ◌||◌, Option, none, some, List, [], ◌∷◌, ◌++◌, ◌==◌, string_eq, nat_eq, int_eq, ltb, leb, eqb,
  if◌then◌else◌, arith, ap, sym, ◌∙◌, subst, inl, inr, ◌⊎◌, Bool-cases, Option-cases, length, map,
  All, filter, is_nil, is_blank, is_empty, strip, ◌≢◌, ◌↔◌, ◌+ℤ◌, ◌-ℤ◌, ◌*ℤ◌, ◌≤ℤ◌, ◌<ℤ◌, ltb_ℤ,
  leb_ℤ, eqb_ℤ, min_ℤ, max_ℤ, pos_part, neg_part, sub_ℕ, ◌*◌, ◌/◌, ◌^◌, ◌<>◌, last_n, take, drop,
  any, all, get_elem?, sort_by, length-append, last_n-append, take_text, length_text,
}
use diplom_code.Base.Dict.{
  Dict, keys, lookup, lookup_or, insert, lookup-insert, lookup_or-insert, erase,
}
use diplom_code.Asr.{
  Engine, Meta, canonical_asr_engine, suffix_from_mime, decode_media, transcribe_float32_window,
}
use diplom_code.Py.{
  join_fields, Runtime, IsDouble, null, bool, int, float, str, arr, obj, nil, cons, end, field,
  Value, Items, Fields, get, get_or, has, fields, items, number, truthy, or_else, text_of,
  is_filled, is_str, is_dict, is_list, is_bool, is_null, dict_or_empty, zero_f, one_f, min_f, max_f,
  set_field, update, opt_str, opt_float, opt_int, Result, ok, raise, ◌>>=◌, ◌>>◌, require,
}

module _ ⦃rt : Runtime⦄ where
  open rt use {F, lit, le, sub, mul, div, of_int, trunc, show_int, is_finite, is_nan}

  pub record Stream : Type 0 where
    pub last_text : String
    pub last_duration : F

  abbrev pub Streams : Type 0
  Streams = Dict String Stream

  pub record TranscribeRequest : Type 0 where
    pub session_id : ℤ
    pub participant_id : String
    pub audio : Fields

  abbrev pub reply : Value → Value → Value → Fields → Fields
  reply partial final language features = fields (
      ("transcript_partial", partial)
      ∷ ("transcript_final", final)
      ∷ ("language", language)
      ∷ ("text_features", obj features)
      ∷ [])

  -- A reply without a transcript, and why there is none.
  abbrev pub no_text : Value → String → Fields → Fields
  no_text language note more =
      reply (str "") null language
        (field "confidence" (float (lit 0 1)) (field "note" (str note) more))

  abbrev pub known : Option String → Value
  known none = str "unknown"
  known (some s) = str (if is_nil s then "unknown" else s)

  abbrev pub language_in : Value → Option String
  language_in (str s) = if is_nil s then none else some s
  language_in _ = none

  unfoldable pub stub_response : TranscribeRequest → Fields
  stub_response req =
      reply
        (str (
          "[stub] session="
          <> (show_int req.session_id <> (" participant=" <> req.participant_id))))
        null (str "ru")
        (fields (("confidence", float (lit 42 2)) ∷ ("sentiment", str "neutral") ∷ []))

  abbrev pub stream_key : TranscribeRequest → String
  stream_key req = show_int req.session_id <> (":" <> req.participant_id)

  abbrev pub stream_of : Option Stream → Stream
  stream_of none = record { last_text = ""; last_duration = lit 0 1 }
  stream_of (some st) = st

  -- `_stream_state.get(stream_key, ...)`
  unfoldable pub current : String → Streams → Stream
  current key s = stream_of (lookup key s)

  -- `bool(audio.get("final_chunk")) or bool(audio.get("is_final"))`
  unfoldable pub is_final : Fields → Bool
  is_final audio = truthy (get "final_chunk" audio) || truthy (get "is_final" audio)

  -- The text to send: nothing, if it is the last one again and the stream goes on.
  unfoldable pub emit_text : Bool → String → String → String
  emit_text final_marker last text =
      if (not (is_nil text) && text == last) && not final_marker then "" else text

  -- The state of the streams after a text was heard.
  unfoldable pub advance : Bool → String → F → String → Stream → Streams → Streams
  advance final_marker key duration text st s =
      if final_marker
      then erase key s
      else insert key
          (record {
            last_text = (if is_nil text then st.last_text else text);
            last_duration = duration;
          })
          s

  -- `duration_sec >= window_seconds and (duration_sec - last_duration >= step_seconds)`
  unfoldable pub is_due : Engine F → F → Stream → Bool
  is_due e duration st =
      le e.window_seconds duration && le e.step_seconds (sub duration st.last_duration)

  -- `int(window_seconds * sample_rate)` raises for a window that is no number.
  abbrev pub window_samples : F → Result ℕ
  window_samples w =
      if is_finite w
      then ok (pos_part (max_ℤ (pos 1) (trunc w)))
      else raise (if is_nan w then "ValueError" else "OverflowError")

  abbrev with_error : Option (String × String) → Fields
  with_error none = end
  with_error (some (error, message)) = fields (("error", str error) ∷ ("message", str message) ∷ [])

  -- The reply that tells of a text.
  unfoldable pub heard_reply : Engine F → Bool → String → Meta F → Fields
  heard_reply e final_marker emit (confidence, language, error) =
      reply (str emit) (if final_marker && not (is_nil emit) then str emit else null)
        (str (if is_nil language then "unknown" else language))
        (join_fields
          (fields (
            ("confidence", float confidence)
            ∷ ("model_size", str e.model_size)
            ∷ ("sentiment", str "neutral")
            ∷ ("window_seconds", float e.window_seconds)
            ∷ ("step_seconds", float e.step_seconds)
            ∷ []))
          (with_error error))

  abbrev pub respond :
      Engine F → TranscribeRequest → F → Streams → String × Meta F → Fields × Streams
  respond e req duration s (heard, details) =
      let key = stream_key req in
      let final_marker = is_final req.audio in
      let st = current key s in
      let text = strip heard in
      (
        heard_reply e final_marker (emit_text final_marker st.last_text text) details,
        advance final_marker key duration text st s,
      )

  unfoldable pub on_window :
      Engine F
      → TranscribeRequest
      → Option String
      → List F
      → F
      → Streams
      → Result (Fields × Streams)
  on_window e req lang pcm duration s = do
    n ← window_samples (mul e.window_seconds (of_int (pos 16000)))
    told ← transcribe_float32_window e (last_n n pcm) lang
    ok (respond e req duration s told)

  unfoldable pub on_samples :
      Engine F → TranscribeRequest → Option String → List F → Streams → Result (Fields × Streams)
  on_samples e req lang pcm s =
      let duration = div (of_int (pos (length pcm))) (of_int (pos 16000)) in
      if is_final req.audio || is_due e duration (current (stream_key req) s)
      then on_window e req lang pcm duration s
      else ok (no_text (known lang) "step_wait" end, s)

  unfoldable pub on_media :
      Engine F
      → TranscribeRequest
      → Option String
      → (String × String) ⊎ List F
      → Streams
      → Result (Fields × Streams)
  on_media e req lang (inl (error, message)) s = ok (
    no_text (known lang) "decode_failed"
        (fields (("error", str error) ∷ ("message", str message) ∷ [])),
    s,
  )
  on_media e req lang (inr pcm) s =
      if is_empty pcm
      then ok (no_text (known lang) "empty_pcm" end, s)
      else on_samples e req lang pcm s

  unfoldable pub media_of : Engine F → TranscribeRequest → List ℕ → (String × String) ⊎ List F
  media_of e req raw = decode_media e raw (
      suffix_from_mime (
        text_of (
          or_else (or_else (get "mime" req.audio) (get "mime_type" req.audio)) (str "audio/webm"))))

  unfoldable pub on_bytes :
      Engine F
      → TranscribeRequest
      → Option String
      → Option (List ℕ)
      → Streams
      → Result (Fields × Streams)
  on_bytes e req lang none s = ok (no_text (str "unknown") "base64_decode_failed" end, s)
  on_bytes e req lang (some raw) s =
      if ltb (length raw) 256
      then ok (no_text (known lang) "chunk_too_small" end, s)
      else on_media e req lang (media_of e req raw) s

  unfoldable pub on_chunk :
      Engine F → TranscribeRequest → Value → Streams → Result (Fields × Streams)
  on_chunk e req (str b64) s =
      if is_blank b64
      then ok (no_text (or_else (get "language" req.audio) (str "unknown")) "empty_chunk" end, s)
      else on_bytes e req (language_in (get "language" req.audio)) (e.base64_decode b64) s
  on_chunk e req _ s =
      ok (no_text (or_else (get "language" req.audio) (str "unknown")) "empty_chunk" end, s)

  -- `_whisper_sync`
  unfoldable pub whisper_sync : Engine F → TranscribeRequest → Streams → Result (Fields × Streams)
  whisper_sync e req s =
      on_chunk e req
        (or_else (or_else (get "chunk_base64" req.audio) (get "data_base64" req.audio))
          (get "base64" req.audio))
        s

  -- `transcribe`: an engine that is not known answers as the stub does.
  unfoldable pub transcribe :
      Option String → Engine F → TranscribeRequest → Streams → Result (Fields × Streams)
  transcribe engine e req s =
      if canonical_asr_engine engine == "whisper"
      then whisper_sync e req s
      else ok (stub_response req, s)
