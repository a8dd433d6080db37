-- ===== src/Speech/Breaker.antt =====
-- The circuit breaker: when requests are made, and when the circuit opens.
use diplom_code.Base.{
  ◌≡◌, refl, ℕ, zero, suc, ◌+◌, ◌-◌, ◌≤◌, ◌<◌, pos, String, true, false, List, [], ◌∷◌, ◌++◌, ◌==◌,
  string_eq, nat_eq, int_eq, leb, eqb, if◌then◌else◌, arith, ap, ◌∙◌, subst, inl, inr, ◌⊎◌,
  Bool-cases, length, ◌+ℤ◌, max_ℤ, pos_part, min,
}
use diplom_code.Base.Dict.{lookup_or, lookup_or-insert}
use diplom_code.Py.{Runtime, Value, one_f, max_f, Result, ok, raise, IsOk}
use diplom_code.Speech.{
  Circuit, Reply, answer, Limits, closed, note_failure, answered, Tries, last_word, is_failure,
  attempts, attempts_allowed, pause, settle, transcribe_audio_chunk, note_success,
}
use native.Mathlib.Nat.{add-zero, zero-add}

shift : (a i : ℕ) → a + 1 + i ≡ a + suc i
shift a i = omega arith

module _ ⦃rt : Runtime⦄ where
  open rt use {F, lt, add, mul, of_int}

  attempts_bound :
      (replies : ℕ → Reply) (b : F) (left attempt : ℕ)
      → let t = attempts replies b left attempt in
        (t.made ≤ left) × (length t.waits ≤ t.made - 1) × (min 1 left ≤ t.made)
  unfolding attempts
  attempts_bound replies b zero attempt = omega arith
  attempts_bound replies b (suc left) attempt =
      ground (arith, attempts_bound replies b left (attempt + 1))

  made-settle :
      (l : Limits) (now : F) (key : String) (c : Circuit) (t : Tries)
      → (settle l now key c t).requests ≡ t.made
  unfolding settle
  made-settle l now key c t = ground arith

  sleeps-settle :
      (l : Limits) (now : F) (key : String) (c : Circuit) (t : Tries)
      → (settle l now key c t).sleeps ≡ t.waits
  unfolding settle
  sleeps-settle l now key c t = ground arith

  -- A call makes at most one request more than it has retries, and none while the circuit is open;
  -- it sleeps only between two requests; and an open circuit is left as it is.
  pub transcribe_bounds :
      (key : String) (l : Limits) (replies : ℕ → Reply) (now later : F) (others : Circuit → Circuit)
      (c : Circuit)
      → let call = transcribe_audio_chunk key l replies now later others c in
        let opened = lt now (lookup_or key closed c).1 in
        (call.requests ≤ (if opened then 0 else attempts_allowed l.retries))
        × (length call.sleeps ≤ call.requests - 1)
        × ((call.circuit ≡ c) ⊎ (opened ≡ false))
  unfolding transcribe_audio_chunk
  transcribe_bounds key l replies now later others c =
      let t = attempts replies l.backoff_sec (attempts_allowed l.retries) 0 in
      let (few, short, _) = attempts_bound replies l.backoff_sec (attempts_allowed l.retries) 0 in
      elim (Bool-cases (lt now (lookup_or key closed c).1)) [
        | inl opened ↦ rw opened (omega arith, omega arith, inl refl)
        | inr shut ↦ rw shut (rw made-settle few, rw (made-settle, sleeps-settle) short, inr refl)
      ]

  -- Once the open time of a circuit is over, a call makes at least one request again, where the
  -- number of retries is not negative, whatever happened before.
  pub transcribe_retries :
      (key : String) (l : Limits) (replies : ℕ → Reply) (now later : F) (others : Circuit → Circuit)
      (c : Circuit) (n : ℕ)
      → l.retries ≡ pos n
      → lt now (lookup_or key closed c).1 ≡ false
      → 1 ≤ (transcribe_audio_chunk key l replies now later others c).requests
  unfolding transcribe_audio_chunk
  transcribe_retries key l replies now later others c n some_left shut =
      let (_, _, one) = attempts_bound replies l.backoff_sec (attempts_allowed l.retries) 0 in
      rw (shut, made-settle) (ground (arith, some_left, one))

  IsOk-eq : (r : Result F) → IsOk r → (s : F) × (r ≡ ok s)
  IsOk-eq (ok s) h = (s, refl)
  IsOk-eq (raise e) h = absurd h

  attempts-answer :
      (replies : ℕ → Reply) (b : F) (k left attempt : ℕ) (v : Value)
      → ((i : ℕ) → i < k → is_failure (replies (attempt + i)) ≡ true)
      → ((i : ℕ) → i < k → IsOk (pause b (attempt + i)))
      → replies (attempt + k) ≡ answer v
      → k < left
      → ((attempts replies b left attempt).ending ≡ answered v)
        × ((attempts replies b left attempt).made ≡ suc k)
  unfolding attempts last_word
  attempts-answer replies b k zero attempt v h p e few = absurd (omega arith)
  attempts-answer replies b zero (suc left) attempt v h p e few =
      let now : replies attempt ≡ answer v = rw add-zero at e in rw now (refl, refl)
  attempts-answer replies b (suc k) (suc left) attempt v h p e few =
      let failed : is_failure (replies attempt) ≡ true = rw add-zero at (h 0 (omega arith)) in
      let more : eqb left 0 ≡ false = ground arith in
      let (ends, made) =
        attempts-answer replies b k left (attempt + 1) v
          (λ i few_left. rw (shift attempt i) (h (suc i) (omega arith)))
          (λ i few_left. rw (shift attempt i) (p (suc i) (omega arith))) (rw (shift attempt k) e)
          (omega arith) in
      let (s, paused) = IsOk-eq (pause b attempt) (rw add-zero at (p 0 (omega arith))) in
      rw (failed, more, paused) (ends, ap suc made)

  -- When the circuit is closed, every request before attempt k fails in a way that is tried again,
  -- no delay between them raises an exception, and attempt k, which the retries allow, is answered,
  -- then the call returns that answer after k + 1 requests and the circuit of this service is
  -- reset, while those of the others are as the other threads left them.
  pub transcribe-answer :
      (key : String) (l : Limits) (replies : ℕ → Reply) (now later : F) (others : Circuit → Circuit)
      (c : Circuit) (k : ℕ) (v : Value)
      → lt now (lookup_or key closed c).1 ≡ false
      → ((i : ℕ) → i < k → is_failure (replies i) ≡ true)
      → ((i : ℕ) → i < k → IsOk (pause l.backoff_sec i))
      → replies k ≡ answer v
      → k < attempts_allowed l.retries
      → let call = transcribe_audio_chunk key l replies now later others c in
        (call.result ≡ ok v)
        × (call.requests ≡ suc k)
        × ((j : String)
            → lookup_or j closed call.circuit
              ≡ (if key == j then closed else lookup_or j closed (others c)))
  unfolding transcribe_audio_chunk settle note_success
  transcribe-answer key l replies now later others c k v shut h p e few =
      let (ends, made) =
        attempts-answer replies l.backoff_sec k (attempts_allowed l.retries) 0 v
          (λ i small. rw zero-add (h i small)) (λ i small. rw zero-add (p i small)) (rw zero-add e)
          few in
      rw (shut, ends) (refl, made, λ j. lookup_or-insert key j closed closed (others c))

  -- The number of consecutive failures that opens the circuit.
  abbrev pub threshold : Limits → ℕ
  threshold l = pos_part (max_ℤ (pos 1) l.failure_threshold)

  -- The table after failed calls, with the times at which they were noted.
  unfoldable pub fail_times : Limits → String → List F → Circuit → Circuit
  fail_times l key [] c = c
  fail_times l key (now ∷ times) c = fail_times l key times (note_failure l now key c)

  note_failure_lem :
      (l : Limits) (now : F) (key : String) (c : Circuit) (m : ℕ) (t : F)
      → lookup_or key closed c ≡ (pos m, t)
      → lookup_or key closed (note_failure l now key c) ≡ (
          if leb (threshold l) (m + 1)
          then (pos 0, add now (max_f one_f l.open_sec))
          else (pos (m + 1), t))
  unfolding note_failure
  note_failure_lem l now key c m t h = ground (
    arith,
    h,
    lookup_or-insert key key (pos 0, add now (max_f one_f l.open_sec)) closed c,
    lookup_or-insert key key (pos m +ℤ pos 1, t) closed c,
    string_eq.same_iff key key,
  )

  count_from :
      (l : Limits) (key : String) (times : List F) (c : Circuit) (m : ℕ) (t : F)
      → lookup_or key closed c ≡ (pos m, t)
      → m + length times < threshold l
      → lookup_or key closed (fail_times l key times c) ≡ (pos (m + length times), t)
  unfolding fail_times
  count_from l key [] c m t h few = rw add-zero h
  count_from l key (now ∷ times) c m t h few =
      let below : leb (threshold l) (m + 1) ≡ false = ground arith in
      rw (← shift m (length times)) (
        count_from l key times (note_failure l now key c) (m + 1) t
          (note_failure_lem l now key c m t h ∙ rw below) (omega arith))

  fail_times-append :
      (l : Limits) (key : String) (times : List F) (last : F) (c : Circuit)
      → fail_times l key (times ++ last ∷ []) c ≡ note_failure l last key (fail_times l key times c)
  unfolding fail_times
  fail_times-append l key [] last c = refl
  fail_times-append l key (now ∷ times) last c =
      fail_times-append l key times last (note_failure l now key c)

  -- From a closed circuit, fewer consecutive failures than the threshold are only counted: the
  -- end of the open time stays what it was.
  pub breaker_counts :
      (l : Limits) (key : String) (times : List F) (c : Circuit) (t : F)
      → lookup_or key closed c ≡ (pos 0, t)
      → length times < threshold l
      → lookup_or key closed (fail_times l key times c) ≡ (pos (length times), t)
  breaker_counts l key times c t h few =
      subst (λ n. lookup_or key closed (fail_times l key times c) ≡ (pos n, t))
        (zero-add (length times)) (count_from l key times c 0 t h (rw zero-add few))

  -- The consecutive failure that reaches the threshold opens the circuit: until `open_sec`, but at
  -- least one second, after the time of that failure; and the count starts again.
  pub breaker_opens :
      (l : Limits) (key : String) (times : List F) (last : F) (c : Circuit) (t : F)
      → lookup_or key closed c ≡ (pos 0, t)
      → length times + 1 ≡ threshold l
      → lookup_or key closed (fail_times l key (times ++ last ∷ []) c)
        ≡ (pos 0, add last (max_f one_f l.open_sec))
  breaker_opens l key times last c t h full =
      let counted = breaker_counts l key times c t h (omega arith) in
      let reached : leb (threshold l) (length times + 1) ≡ true = ground arith in
      rw fail_times-append (
        note_failure_lem l last key (fail_times l key times c) (length times) t counted
        ∙ rw reached)
