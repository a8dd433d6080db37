-- ===== src/Asr/Stream/Repeats.antt =====
-- What the speech service keeps of a stream, and that it does not say the same twice.
use diplom_code.Base.{
  ◌≡◌, refl, ℕ, pos, String, Bool, true, false, ◌||◌, Option, none, some, List, [], ◌∷◌, ◌==◌,
  string_eq, nat_eq, int_eq, ltb, if◌then◌else◌, arith, ap, sym, ◌∙◌, subst, inl, inr, ◌⊎◌, length,
  is_nil, is_blank, strip, last_n,
}
use diplom_code.Base.Dict.{lookup, insert, lookup-insert, lookup-erase}
use diplom_code.Py.{
  Runtime, null, str, end, Value, Fields, get, or_else, text_of, ok, >>=-eq-ok, ok-injective,
}
use diplom_code.Asr.{Engine, Meta, transcribe_float32_window}
use diplom_code.Asr.Stream.{
  on_window, on_samples, on_media, on_bytes, on_chunk, whisper_sync, advance, TranscribeRequest,
  Stream, Streams, no_text, stream_key, is_final, respond, window_samples, known, language_in,
  current, is_due, media_of, emit_text, heard_reply,
}

module _ ⦃rt : Runtime⦄ where
  open rt use {F, mul, div, of_int}

  -- A reply that has no transcript and leaves the streams alone, or what follows from a text heard.
  abbrev Outcome : Engine F → TranscribeRequest → Streams → Fields × Streams → Type 0
  Outcome e req s out =
      ((get "transcript_partial" out.0 ≡ str "") × (out.1 ≡ s))
      ⊎ ((duration : F) × (heard : String × Meta F) × (respond e req duration s heard ≡ out))

  silent :
      (e : Engine F) (req : TranscribeRequest) (s : Streams) (language : Value) (note : String)
      (more : Fields) (out : Fields × Streams)
      → ok (no_text language note more, s) ≡ ok out
      → Outcome e req s out
  silent e req s language note more out h =
      subst (Outcome e req s) (ok-injective h) (inl (refl, refl))

  on_window_lem :
      (e : Engine F) (req : TranscribeRequest) (lang : Option String) (pcm : List F) (duration : F)
      (s : Streams) (out : Fields × Streams)
      → on_window e req lang pcm duration s ≡ ok out
      → Outcome e req s out
  unfolding on_window
  on_window_lem e req lang pcm duration s out h =
      let (n, _, h1) = >>=-eq-ok (window_samples (mul e.window_seconds (of_int (pos 16000)))) _ h in
      let (told, _, h2) = >>=-eq-ok (transcribe_float32_window e (last_n n pcm) lang) _ h1 in
      inr (duration, told, ok-injective h2)

  on_samples_lem :
      (e : Engine F) (req : TranscribeRequest) (lang : Option String) (pcm : List F) (s : Streams)
      (out : Fields × Streams)
      → on_samples e req lang pcm s ≡ ok out
      → Outcome e req s out
  unfolding on_samples
  on_samples_lem e req lang pcm s out = go (
      is_final req.audio
      || is_due e (div (of_int (pos (length pcm))) (of_int (pos 16000)))
          (current (stream_key req) s))
    where
      go :
          (b : Bool)
          → (if b
              then on_window e req lang pcm (div (of_int (pos (length pcm))) (of_int (pos 16000))) s
              else ok (no_text (known lang) "step_wait" end, s))
            ≡ ok out
          → Outcome e req s out
      go true h = on_window_lem e req lang pcm _ s out h
      go false h = silent e req s _ _ _ out h

  on_media_lem :
      (e : Engine F) (req : TranscribeRequest) (lang : Option String)
      (media : (String × String) ⊎ List F) (s : Streams) (out : Fields × Streams)
      → on_media e req lang media s ≡ ok out
      → Outcome e req s out
  unfolding on_media
  on_media_lem e req lang (inl (error, message)) s out h = silent e req s _ _ _ out h
  on_media_lem e req lang (inr []) s out h = silent e req s _ _ _ out h
  on_media_lem e req lang (inr (x ∷ xs)) s out h = on_samples_lem e req lang (x ∷ xs) s out h

  on_bytes_lem :
      (e : Engine F) (req : TranscribeRequest) (lang : Option String) (raw : Option (List ℕ))
      (s : Streams) (out : Fields × Streams)
      → on_bytes e req lang raw s ≡ ok out
      → Outcome e req s out
  unfolding on_bytes
  on_bytes_lem e req lang none s out h = silent e req s _ _ _ out h
  on_bytes_lem e req lang (some raw) s out h = go (ltb (length raw) 256) h
    where
      go :
          (b : Bool)
          → (if b
              then ok (no_text (known lang) "chunk_too_small" end, s)
              else on_media e req lang (media_of e req raw) s)
            ≡ ok out
          → Outcome e req s out
      go true h = silent e req s _ _ _ out h
      go false h = on_media_lem e req lang (media_of e req raw) s out h

  on_chunk_lem :
      (e : Engine F) (req : TranscribeRequest) (v : Value) (s : Streams) (out : Fields × Streams)
      → on_chunk e req v s ≡ ok out
      → Outcome e req s out
  unfolding on_chunk
  on_chunk_lem e req (str b64) s out h = go (is_blank b64) h
    where
      go :
          (b : Bool)
          → (if b
              then ok (
                no_text (or_else (get "language" req.audio) (str "unknown")) "empty_chunk" end,
                s,
              )
              else on_bytes e req (language_in (get "language" req.audio)) (e.base64_decode b64) s)
            ≡ ok out
          → Outcome e req s out
      go true h = silent e req s _ _ _ out h
      go false h = on_bytes_lem e req _ (e.base64_decode b64) s out h
  on_chunk_lem e req null s out h = silent e req s _ _ _ out h
  on_chunk_lem e req _ s out h = silent e req s _ _ _ out h

  whisper_sync-Outcome :
      (e : Engine F) (req : TranscribeRequest) (s : Streams) (out : Fields × Streams)
      → whisper_sync e req s ≡ ok out
      → Outcome e req s out
  unfolding whisper_sync
  whisper_sync-Outcome e req s out h = on_chunk_lem e req _ s out h

  lookup-advance :
      (final_marker : Bool) (key j : String) (duration : F) (text : String) (st : Stream)
      (s : Streams)
      → (key == j) ≡ false
      → lookup j (advance final_marker key duration text st s) ≡ lookup j s
  unfolding advance
  lookup-advance true key j duration text st s h = rw (lookup-erase, h) refl
  lookup-advance false key j duration text st s h = rw (lookup-insert, h) refl

  -- A chunk of one stream leaves the state of every other stream as it is.
  pub other_streams_kept :
      (e : Engine F) (req : TranscribeRequest) (s : Streams) (out : Fields × Streams) (j : String)
      → whisper_sync e req s ≡ ok out
      → (stream_key req == j) ≡ false
      → lookup j out.1 ≡ lookup j s
  other_streams_kept e req s out j h other = elim (whisper_sync-Outcome e req s out h) [
    | inl (_, same) ↦ ap (lookup j) same
    | inr (duration, heard, eq) ↦
        subst (λ o. lookup j o.1 ≡ lookup j s) eq (lookup-advance _ _ j duration _ _ s other)
  ]

  -- A text that is sent was not held back.
  sent :
      (held : Bool) (text t : String)
      → (if held then "" else text) ≡ t
      → is_nil t ≡ false
      → (held ≡ false) × (text ≡ t)
  sent true text t h filled = ground (arith, ap is_nil h)
  sent false text t h filled = (refl, h)

  current-insert : (key : String) (st : Stream) (s : Streams) → current key (insert key st s) ≡ st
  unfolding current
  current-insert key st s =
      rw (lookup-insert key key st s, (string_eq.same_iff key key).1 refl) refl

  new_text :
      (key text t : String) (duration : F) (st : Stream) (s : Streams)
      → emit_text false st.last_text text ≡ t
      → is_nil t ≡ false
      → ((t == st.last_text) ≡ false)
        × ((current key (advance false key duration text st s)).last_text ≡ t)
  unfolding emit_text advance
  new_text key text t duration st s h filled =
      let (free, same) = sent _ text t h filled in
      let text_filled : is_nil text ≡ false = ap is_nil same ∙ filled in
      (
        subst (λ x. (x == st.last_text) ≡ false) same (ground (arith, free, text_filled)),
        rw (current-insert, text_filled) same,
      )

  partial_of_heard :
      (e : Engine F) (final_marker : Bool) (emit : String) (details : Meta F)
      → get "transcript_partial" (heard_reply e final_marker emit details) ≡ str emit
  unfolding heard_reply
  partial_of_heard e final_marker emit (confidence, language, error) = refl

  heard_new :
      (e : Engine F) (req : TranscribeRequest) (s : Streams) (out : Fields × Streams) (t : String)
      (duration : F) (heard : String) (details : Meta F)
      → is_final req.audio ≡ false
      → respond e req duration s (heard, details) ≡ out
      → get "transcript_partial" out.0 ≡ str t
      → is_nil t ≡ false
      → ((t == (current (stream_key req) s).last_text) ≡ false)
        × ((current (stream_key req) out.1).last_text ≡ t)
  heard_new e req s out t duration heard details goes_on eq tells filled =
      let key = stream_key req in
      let st = current key s in
      let text = strip heard in
      let told : emit_text (is_final req.audio) st.last_text text ≡ t = ap text_of (
        sym (partial_of_heard e (is_final req.audio) _ details)
        ∙ ap (λ o. get "transcript_partial" o.0) eq
        ∙ tells) in
      let (other, kept) =
        new_text key text t duration st s
          (subst (λ b. emit_text b st.last_text text ≡ t) goes_on told) filled in
      (
        other,
        subst (λ o. (current key o.1).last_text ≡ t) eq
            (subst (λ b. (current key (advance b key duration text st s)).last_text ≡ t)
              (sym goes_on) kept),
      )

  -- If a chunk that does not end its stream is answered with a text that is not empty, then it is
  -- not the text that the stream had last, and from now on it is the text that the stream has last.
  pub text_is_new :
      (e : Engine F) (req : TranscribeRequest) (s : Streams) (out : Fields × Streams) (t : String)
      → whisper_sync e req s ≡ ok out
      → is_final req.audio ≡ false
      → get "transcript_partial" out.0 ≡ str t
      → is_nil t ≡ false
      → ((t == (current (stream_key req) s).last_text) ≡ false)
        × ((current (stream_key req) out.1).last_text ≡ t)
  text_is_new e req s out t h goes_on tells filled = elim (whisper_sync-Outcome e req s out h) [
    | inl (silence, _) ↦ ground (arith, ap is_nil (ap text_of (sym silence ∙ tells)))
    | inr (duration, (heard, details), eq) ↦
        heard_new e req s out t duration heard details goes_on eq tells filled
  ]
