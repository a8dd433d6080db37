-- ===== src/Text/Transcription/Counters.antt =====
-- code/ai-gateway/modules/text/transcription.py: the counters that tell how a chunk ends, and those
-- that the speech adapter raises meanwhile.
use diplom_code.Base.{
  ◌≡◌, refl, ℕ, zero, suc, ◌+◌, String, false, not, ◌&&◌, List, [], ◌∷◌, string_eq, nat_eq, int_eq,
  eqb, subst, inl, inr, Bool-cases, if◌then◌else◌, Bool, true,
}
use diplom_code.Base.Dict.{lookup_or}
use diplom_code.Py.{Runtime, Result, ok, raise}
use diplom_code.Act.{World}
use diplom_code.Act.Laws.{
  Adds, next-Adds, lift-Adds, count_all-Adds, occurrences_all, Adds-from, occurrences, total-shared,
}
use diplom_code.Text.Transcription.{count_all, call_service, Inputs}
use diplom_code.Speech.{
  Limits, Ending, settle, transcribe_audio_chunk, last_word, attempts, Circuit, gave_up, Reply,
  answered, closed, answer, is_failure, escaped, attempts_allowed, http_error, unexpected,
  transport_error, uncaught, Tries, pause, after_pause,
}

-- How a chunk ends: an error of the service, an empty transcript, a message whose envelope is not
-- complete, or a message sent.
pub data Outcome : Type 0 where
  failed : Outcome
  empty : Outcome
  incomplete : Outcome
  sent : Outcome

abbrev pub counter_of : Outcome → String
counter_of failed = "text_analysis_errors"
counter_of empty = "speech_asr_empty_transcript"
counter_of incomplete = "text_contract_invalid"
counter_of sent = "text_analysis_sent"

-- The list of one counter.
abbrev pub only : Outcome → List String
only o = counter_of o ∷ []

module _ ⦃rt : Runtime⦄ where
  -- How often the outcome `k` raises the counter of `o`.
  abbrev pub rises : Outcome → Outcome → ℕ
  rises k o = occurrences (counter_of k) (only o)

  pub sent-rises :
      (o : Outcome)
      → occurrences "text_analysis_sent" (only o) + occurrences "speech_transcribe_ok" (only o)
        ≡ rises sent o
  sent-rises failed = refl
  sent-rises empty = refl
  sent-rises incomplete = refl
  sent-rises sent = refl

  pub failed-rises :
      (opened : Bool) (o : Outcome)
      → occurrences_all
          ("text_analysis_errors"
            ∷ "speech_transcribe_failed"
            ∷ (if opened then "speech_service_circuit_open" ∷ [] else []))
          (only o)
        ≡ rises failed o
  failed-rises true failed = refl
  failed-rises true empty = refl
  failed-rises true incomplete = refl
  failed-rises true sent = refl
  failed-rises false failed = refl
  failed-rises false empty = refl
  failed-rises false incomplete = refl
  failed-rises false sent = refl

  -- The adapter's own counters are others.
  abbrev pub IsOther : String → Type 0
  IsOther metric = (o : Outcome) → occurrences metric (only o) ≡ 0

  http_ok-IsOther : IsOther "speech_adapter_http_ok"
  http_ok-IsOther failed = refl
  http_ok-IsOther empty = refl
  http_ok-IsOther incomplete = refl
  http_ok-IsOther sent = refl

  http_error-IsOther : IsOther "speech_adapter_http_error"
  http_error-IsOther failed = refl
  http_error-IsOther empty = refl
  http_error-IsOther incomplete = refl
  http_error-IsOther sent = refl

  transport_error-IsOther : IsOther "speech_adapter_transport_error"
  transport_error-IsOther failed = refl
  transport_error-IsOther empty = refl
  transport_error-IsOther incomplete = refl
  transport_error-IsOther sent = refl

  abbrev CountsOther : Ending → Type 0
  CountsOther (gave_up v metric) = IsOther metric
  CountsOther _ = Unit {0}

  last_word-CountsOther : (r : Reply) (attempt : ℕ) → CountsOther (last_word r attempt)
  unfolding last_word
  last_word-CountsOther (answer v) attempt = tt
  last_word-CountsOther (http_error code snippet) attempt = http_error-IsOther
  last_word-CountsOther (transport_error e) attempt = transport_error-IsOther
  last_word-CountsOther (uncaught e) attempt = tt

  after_pause-CountsOther :
      (r : Result rt.F) (t : Tries) → CountsOther t.ending → CountsOther (after_pause r t).ending
  after_pause-CountsOther (ok s) t h = h
  after_pause-CountsOther (raise e) t h = tt

  attempts-CountsOther :
      (replies : ℕ → Reply) (b : rt.F) (left attempt : ℕ)
      → CountsOther (attempts replies b left attempt).ending
  unfolding attempts
  attempts-CountsOther replies b zero attempt = tt
  attempts-CountsOther replies b (suc left) attempt =
      elim (Bool-cases (is_failure (replies attempt) && not (eqb left 0))) [
        | inl again ↦ rw again (
            after_pause-CountsOther (pause b attempt) (attempts replies b left (attempt + 1))
              (attempts-CountsOther replies b left (attempt + 1)))
        | inr last ↦ rw last (last_word-CountsOther (replies attempt) attempt)
      ]

  counted-settle :
      (l : Limits) (now : rt.F) (key : String) (c : Circuit) (e : Ending) (made : ℕ)
      (waits : List rt.F) (o : Outcome)
      → CountsOther e
      → occurrences_all
          (settle l now key c (record { ending = e; made = made; waits = waits })).counted
          (only o)
        ≡ 0
  unfolding settle
  counted-settle l now key c (answered v) made waits o h = rw (http_ok-IsOther o) refl
  counted-settle l now key c (gave_up v metric) made waits o h = rw (h o) refl
  counted-settle l now key c (escaped x) made waits o h = refl
  counted-settle l now key c unexpected made waits o h = refl

  counted-transcribe :
      (key : String) (l : Limits) (i : Inputs) (c : Circuit) (o : Outcome)
      → occurrences_all
          (transcribe_audio_chunk key l i.replies i.now i.later i.others c).counted
          (only o)
        ≡ 0
  unfolding transcribe_audio_chunk
  counted-transcribe key l i c o = elim (Bool-cases (rt.lt i.now (lookup_or key closed c).1)) [
    | inl opened ↦ rw opened refl
    | inr shut ↦
        let t = attempts i.replies l.backoff_sec (attempts_allowed l.retries) 0 in
        rw shut (
          counted-settle l i.later key (i.others c) t.ending t.made t.waits o
            (attempts-CountsOther i.replies l.backoff_sec (attempts_allowed l.retries) 0))
  ]

  pub call_service-Adds :
      (key : String) (l : Limits) (i : Inputs) (w : World) (o : Outcome)
      → Adds (only o) 0 w (call_service key l i w)
  unfolding call_service
  call_service-Adds key l i (g, s) o =
      let call = transcribe_audio_chunk key l i.replies i.now i.later i.others s.circuit in
      let after : World = (g, record s { circuit = call.circuit }) in
      Adds-from (only o) 0 (g, s) after _ (total-shared (only o) g _ s)
        (next-Adds (only o) 0 after _ _
          (subst (λ n. Adds (only o) n after (count_all call.counted after))
            (counted-transcribe key l i s.circuit o) (count_all-Adds (only o) call.counted after))
          (λ _ w1. lift-Adds (only o) call.result w1))
