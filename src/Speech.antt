-- ===== src/Speech.antt =====
-- code/ai-gateway/adapters/speech_service.py: the client of the speech service, with retries and a
-- circuit breaker for each base URL. What the requests bring back is an argument, as are the times
-- read and what other threads do to the shared table while the requests run.
pub mod Breaker
use diplom_code.Base.{
  ◌≡◌, refl, ℕ, zero, suc, ◌+◌, ◌-◌, ◌≤◌, ◌<◌, ℤ, pos, negsuc, String, Bool, true, false, not, ◌&&◌,
  ◌||◌, Option, none, some, List, [], ◌∷◌, ◌++◌, ◌==◌, string_eq, nat_eq, int_eq, ltb, leb, eqb,
  if◌then◌else◌, arith, ap, sym, ◌∙◌, subst, inl, inr, ◌⊎◌, Bool-cases, Option-cases, length, map,
  All, filter, is_nil, is_blank, is_empty, strip, ◌≢◌, ◌↔◌, ◌+ℤ◌, ◌<>◌, ◌^◌, leb_ℤ, max_ℤ,
}
use diplom_code.Base.Dict.{Dict, keys, lookup, lookup_or, insert, lookup-insert, lookup_or-insert}
use diplom_code.Py.{
  Runtime, IsDouble, null, bool, int, float, str, arr, obj, nil, cons, end, field, Value, Items,
  Fields, get, get_or, has, fields, items, number, truthy, or_else, text_of, is_filled, is_str,
  is_dict, is_list, is_bool, is_null, dict_or_empty, zero_f, one_f, min_f, max_f, set_field, update,
  opt_str, opt_float, opt_int, Result, ok, raise, ◌>>=◌, ◌>>◌, require,
}

module _ ⦃rt : Runtime⦄ where
  open rt use {F, lt, add, mul, of_int, is_nan}

  -- `_circuit`: consecutive failures and the end of the open time.
  abbrev pub Circuit : Type 0
  Circuit = Dict String (ℤ × F)

  -- How one request ends: with JSON, with an `HTTPError`, or with a `URLError`, `JSONDecodeError`
  -- or `TimeoutError`; any other exception is not caught.
  pub data Reply : Type 0 where
    answer : Value → Reply
    http_error : String → String → Reply
    transport_error : String → Reply
    uncaught : String → Reply

  pub record Limits : Type 0 where
    pub retries : ℤ
    pub backoff_sec : F
    pub failure_threshold : ℤ
    pub open_sec : F

  pub record Call : Type 0 where
    pub result : Result Value
    pub circuit : Circuit
    pub requests : ℕ
    pub sleeps : List F
    pub counted : List String

  abbrev pub closed : ℤ × F
  closed = (pos 0, zero_f)

  -- The table after one more failed call: `prev = _circuit.get(key, (0, 0.0))` and what follows.
  unfoldable pub note_failure : Limits → F → String → Circuit → Circuit
  note_failure l now key c =
      let (fails, open_until) = lookup_or key closed c in
      let nfails = fails +ℤ pos 1 in
      if leb_ℤ (max_ℤ (pos 1) l.failure_threshold) nfails
      then insert key (pos 0, add now (max_f one_f l.open_sec)) c
      else insert key (nfails, open_until) c

  unfoldable pub note_success : String → Circuit → Circuit
  note_success key c = insert key closed c

  -- How the request loop ends.
  pub data Ending : Type 0 where
    answered : Value → Ending
    gave_up : Value → String → Ending
    escaped : String → Ending
    unexpected : Ending

  pub record Tries : Type 0 where
    pub ending : Ending
    pub made : ℕ
    pub waits : List F

  abbrev pub count_try : F → Tries → Tries
  count_try wait t = record { ending = t.ending; made = suc t.made; waits = wait ∷ t.waits }

  abbrev pub one_try : Ending → Tries
  one_try e = record { ending = e; made = 1; waits = [] }

  unfoldable pub http_body : String → String → ℕ → Value
  http_body code snippet attempt = obj (
      fields (
        ("_error", str ("HTTPError " <> code))
        ∷ ("_http_body_preview", str snippet)
        ∷ ("_attempts", int (pos (suc attempt)))
        ∷ []))

  unfoldable pub transport_body : String → ℕ → Value
  transport_body e attempt =
      obj (fields (("_error", str e) ∷ ("_attempts", int (pos (suc attempt))) ∷ []))

  -- What is returned at the last attempt; none while the request may be tried again.
  unfoldable pub last_word : Reply → ℕ → Ending
  last_word (answer v) attempt = answered v
  last_word (http_error code snippet) attempt =
      gave_up (http_body code snippet attempt) "speech_adapter_http_error"
  last_word (transport_error e) attempt =
      gave_up (transport_body e attempt) "speech_adapter_transport_error"
  last_word (uncaught e) attempt = escaped e

  abbrev pub is_failure : Reply → Bool
  is_failure (answer v) = false
  is_failure (http_error code snippet) = true
  is_failure (transport_error e) = true
  is_failure (uncaught e) = false

  -- `backoff_sec * (2**attempt)`: an integer from 2 ** 1024 on becomes no float.
  sleep_for : F → ℕ → Result F
  sleep_for backoff attempt =
      if leb 1024 attempt
      then raise "OverflowError"
      else ok (mul backoff (of_int (pos (2 ^ attempt))))

  -- `time.sleep(s)`: a time in nanoseconds that needs no more than 64 bits, and is not negative.
  sleep : F → Result (Unit {0})
  sleep s =
      let ns = mul s (of_int (pos 1000000000)) in
      if is_nan s
      then raise "ValueError"
      else if lt ns (of_int (negsuc 9223372036854775807))
          || not (lt ns (of_int (pos 9223372036854775808)))
      then raise "OverflowError"
      else if lt s zero_f
      then raise "ValueError"
      else ok tt

  -- The delay before the next attempt, when it has passed.
  unfoldable pub pause : F → ℕ → Result F
  unfolding sleep_for sleep
  pause backoff attempt = do s ← sleep_for backoff attempt; sleep s; ok s

  abbrev pub after_pause : Result F → Tries → Tries
  after_pause (ok s) t = count_try s t
  after_pause (raise e) t = one_try (escaped e)

  -- `while attempt <= retries`; `left` is retries - attempt + 1. An exception of the delay leaves
  -- the function.
  unfoldable pub attempts : (ℕ → Reply) → F → ℕ → ℕ → Tries
  attempts replies backoff zero attempt = record { ending = unexpected; made = 0; waits = [] }
  attempts replies backoff (suc left) attempt =
      let again =
        after_pause (pause backoff attempt) (attempts replies backoff left (attempt + 1)) in
      if is_failure (replies attempt) && not (eqb left 0)
      then again
      else one_try (last_word (replies attempt) attempt)

  -- `attempt <= retries` holds for attempts 0 to retries.
  abbrev pub attempts_allowed : ℤ → ℕ
  attempts_allowed (pos n) = suc n
  attempts_allowed (negsuc n) = 0

  unfoldable pub settle : Limits → F → String → Circuit → Tries → Call
  settle l now key c t = elim t.ending [
    | answered v ↦ record {
      result = ok v;
      circuit = note_success key c;
      requests = t.made;
      sleeps = t.waits;
      counted = "speech_adapter_http_ok" ∷ [];
    }
    | gave_up v metric ↦ record {
      result = ok v;
      circuit = note_failure l now key c;
      requests = t.made;
      sleeps = t.waits;
      counted = metric ∷ [];
    }
    | escaped e ↦ record {
      result = raise e;
      circuit = c;
      requests = t.made;
      sleeps = t.waits;
      counted = [];
    }
    | unexpected ↦ record {
      result = ok (obj (field "_error" (str "unexpected asr adapter state") end));
      circuit = c;
      requests = t.made;
      sleeps = t.waits;
      counted = [];
    }
  ]

  unfoldable pub open_error : F → Value
  open_error open_until = obj (
      fields (
        ("_error", str "circuit_open")
        ∷ ("_circuit_open", bool true)
        ∷ ("_open_until", float open_until)
        ∷ []))

  -- `key` is the base URL without its trailing slashes, `now` and `later` the two readings of the
  -- clock, and `others` what other threads do to the table between the two locked sections.
  unfoldable pub transcribe_audio_chunk :
      String → Limits → (ℕ → Reply) → F → F → (Circuit → Circuit) → Circuit → Call
  transcribe_audio_chunk key l replies now later others c =
      let (fails, open_until) = lookup_or key closed c in
      if lt now open_until
      then record {
        result = ok (open_error open_until);
        circuit = c;
        requests = 0;
        sleeps = [];
        counted = [];
      }
      else settle l later key (others c)
          (attempts replies l.backoff_sec (attempts_allowed l.retries) 0)
