-- ===== src/Text/Transcription/Outcome.antt =====
-- Every chunk that is sent to the speech service is counted once.
use diplom_code.Base.{
  ◌≡◌, refl, ℕ, ◌+◌, String, false, List, string_eq, nat_eq, int_eq, subst, inl, inr, Bool-cases,
  is_nil, pos, ◌+ℤ◌, +ℤ-zero, if◌then◌else◌, ◌==◌, ◌∙◌, sym,
}
use diplom_code.Py.{Runtime, null, obj, Value, Fields, get, truthy, Result, ok, raise}
use diplom_code.Act.{World, Act, next, ◌>>◌, count, counted, send, remember, int_arg}
use diplom_code.Act.Laws.{
  Adds, lift-Adds, send-Adds, remember-Adds, count-Adds, count_then-Adds, count_all-Adds, Adds-from,
  occurrences, total_of,
}
use diplom_code.Text.Transcription.{
  emit_valid, emit_text, on_transcript, on_error, on_result, ask_service, transcribe_and_emit,
  service_url, limits_of, rstrip_slashes, version_of, Inputs,
}
use diplom_code.Contracts.{has_required_envelope_fields}
use diplom_code.Text.{has_transcript_content}
use diplom_code.Config.{ModuleCfg}
use native.Mathlib.Nat.{add-zero}
use diplom_code.Text.Transcription.Counters.{
  Outcome, failed, empty, incomplete, sent, counter_of, only, rises, sent-rises, failed-rises,
  call_service-Adds,
}

module _ ⦃rt : Runtime⦄ where
  -- One outcome `k` says what happens to each of the four counters.
  abbrev One : {A : Type 0} → World → Result A × World → Type 0
  One w r = (k : Outcome) × ((o : Outcome) → Adds (only o) (rises k o) w r)

  relabel :
      {A : Type 0} (ms : List String) (m n : ℕ) (w : World) (r : Result A × World)
      → m ≡ n
      → Adds ms m w r
      → Adds ms n w r
  relabel ms m n w r e h = subst (λ k. Adds ms k w r) e h

  -- What touches none of them, and then what ends in one outcome.
  next-One :
      {A B : Type 0} (w : World) (r : Result A × World) (f : A → Act B)
      → ((o : Outcome) → Adds (only o) 0 w r)
      → ((a : A) (w' : World) → One w' (f a w'))
      → One w (next r f)
  next-One w (ok a, w') f h one =
      let (k, each) = one a w' in
      (
        k,
        λ o.
            Adds-from (only o) (rises k o) w w' (f a w') (h o ∙ +ℤ-zero (total_of (only o) w))
              (each o),
      )
  next-One w (raise e, w') f h one = (failed, h)

  count-One : (k : Outcome) (w : World) → One w (count (counter_of k) w)
  count-One k w = (k, λ o. count-Adds (only o) (counter_of k) w)

  ok-count : (k : String) (w : World) → (count k w).0 ≡ ok tt
  unfolding count
  ok-count k (g, s) = refl

  sent-One : (w : World) → One w ((count "text_analysis_sent" >> count "speech_transcribe_ok") w)
  sent-One w = (
    sent,
    λ o.
        relabel (only o)
          (occurrences "text_analysis_sent" (only o) + occurrences "speech_transcribe_ok" (only o))
          (rises sent o) w _ (sent-rises o)
          (count_then-Adds (only o) "text_analysis_sent"
            (occurrences "speech_transcribe_ok" (only o)) w tt (count "speech_transcribe_ok")
            (ok-count _ _) (count-Adds (only o) "speech_transcribe_ok" _)),
  )

  emit_valid-One :
      (msg payload : Fields) (i : Inputs) (w : World) → One w (emit_valid msg payload i w)
  unfolding emit_valid
  emit_valid-One msg payload i w =
      next-One w (send _ w) _ (λ o. send-Adds (only o) _ w)
        (λ _ w1.
          next-One w1 _ _ (λ o. lift-Adds (only o) (int_arg (get "session_id" msg)) w1)
            (λ sid w2.
              next-One w2 (remember _ w2) _ (λ o. remember-Adds (only o) _ w2)
                (λ _ w3. sent-One w3)))

  emit_text-One :
      (msg payload : Fields) (i : Inputs) (w : World) → One w (emit_text msg payload i w)
  unfolding emit_text
  emit_text-One msg payload i w = elim (Bool-cases (has_required_envelope_fields payload)) [
    | inl complete ↦ rw complete (emit_valid-One msg payload i w)
    | inr missing ↦ rw missing (count-One incomplete w)
  ]

  on_transcript-One :
      (msg : Fields) (version : String) (i : Inputs) (norm : Fields) (w : World)
      → One w (on_transcript msg version i norm w)
  unfolding on_transcript
  on_transcript-One msg version i norm w = elim (Bool-cases (has_transcript_content norm)) [
    | inl some_text ↦ rw some_text (emit_text-One msg _ i w)
    | inr none_there ↦ rw none_there (count-One empty w)
  ]

  on_error-One : (result : Fields) (w : World) → One w (on_error result w)
  unfolding on_error
  on_error-One result w = (
    failed,
    λ o.
        relabel (only o) _ (rises failed o) w _
          (failed-rises (truthy (get "_circuit_open" result)) o) (count_all-Adds (only o) _ w),
  )

  on_result-One :
      (msg : Fields) (version : String) (i : Inputs) (result : Value) (w : World)
      → One w (on_result msg version i result w)
  unfolding on_result
  on_result-One msg version i (obj result) w = elim (Bool-cases (truthy (get "_error" result))) [
    | inl broken ↦ rw broken (on_error-One result w)
    | inr without ↦ rw without (on_transcript-One msg version i _ w)
  ]
  on_result-One msg version i null w = count-One failed w
  on_result-One msg version i _ w = count-One failed w

  transcribe_and_emit-One :
      (msg : Fields) (text_mod : ModuleCfg) (i : Inputs) (w : World)
      → is_nil (service_url text_mod) ≡ false
      → One w (transcribe_and_emit msg text_mod i w)
  unfolding transcribe_and_emit ask_service
  transcribe_and_emit-One msg text_mod i w h = rw h (
      next-One w _ _ (λ o. lift-Adds (only o) (limits_of text_mod.params) w)
        (λ l w1.
          next-One w1 _ _ (λ o. lift-Adds (only o) (int_arg (get "session_id" msg)) w1)
            (λ sid w2.
              next-One w2 _ _ (call_service-Adds (rstrip_slashes (service_url text_mod)) l i w2)
                (λ result w3. on_result-One msg (version_of text_mod) i result w3))))

  -- One counter has gone up by one and the three others are as they were; after an exception all
  -- four are.
  abbrev pub EndsOnce : {A : Type 0} → World → Result A × World → Type 0
  EndsOnce w (ok a, w') =
      (k : Outcome) × ((o : Outcome)
        → counted (counter_of o) w'
          ≡ counted (counter_of o) w +ℤ pos (if counter_of k == counter_of o then 1 else 0))
  EndsOnce w (raise e, w') = (o : Outcome) → counted (counter_of o) w' ≡ counted (counter_of o) w

  One-EndsOnce : {A : Type 0} (w : World) (r : Result A × World) → One w r → EndsOnce w r
  One-EndsOnce w (ok a, w') (k, each) = (
    k,
    λ o. sym (+ℤ-zero (counted (counter_of o) w')) ∙ each o ∙ (λ i.
        +ℤ-zero (counted (counter_of o) w) i
        +ℤ pos (add-zero (if counter_of k == counter_of o then 1 else 0) i)),
  )
  One-EndsOnce w (raise e, w') (k, each) =
      λ o. sym (+ℤ-zero (counted (counter_of o) w')) ∙ each o ∙ +ℤ-zero (counted (counter_of o) w)

  -- A chunk for a service whose URL is set ends in exactly one of four counters going up by one,
  -- while the three others stay as they are: an error, an empty transcript, a message with an
  -- incomplete envelope, or a message sent. An exception that leaves the function has touched none
  -- of the four.
  pub transcribe_and_emit-EndsOnce :
      (msg : Fields) (text_mod : ModuleCfg) (i : Inputs) (w : World)
      → is_nil (service_url text_mod) ≡ false
      → EndsOnce w (transcribe_and_emit msg text_mod i w)
  transcribe_and_emit-EndsOnce msg text_mod i w h =
      One-EndsOnce w _ (transcribe_and_emit-One msg text_mod i w h)
