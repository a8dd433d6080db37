-- ===== src/Examples.antt =====
-- The theorems at concrete inputs.
mod Numbers
mod Payloads
mod Plugins
mod Reports
use diplom_code.Base.{
  ◌≡◌, refl, ℕ, ◌+◌, ◌-◌, ◌≤◌, ℤ, pos, negsuc, String, Bool, true, false, Option, none, some, List,
  [], ◌∷◌, ◌++◌, ◌==◌, if◌then◌else◌, last_n, any, All, sum_by, length, ltb_ℤ, ◌⊎◌, inl, inr, ◌+ℤ◌,
  Ascending, ◌<ℤ◌, map, ◌≢◌, arith, string_eq, int_eq, ◌<◌, suc, zero, strip, lstrip, rstrip,
  is_space,
}
use diplom_code.Base.Dict.{Dict, lookup, lookup_or}
use diplom_code.Py.{
  Runtime, IsDouble, null, bool, int, float, str, arr, obj, nil, cons, end, field, Value, Fields,
  get, fields, Result, ok, raise, dict_or_empty, IsOk,
}
use diplom_code.Examples.Numbers.{thousandths, thousandths_laws, thousandths_lower}
use diplom_code.Store.{Push, snapshot_session, session_ids}
use diplom_code.Store.History.{run, history, snapshot-run, session_ids-run, session_ids-Ascending}
use diplom_code.Speech.{
  Limits, Reply, answer, http_error, Circuit, Call, closed, transcribe_audio_chunk, is_failure,
  pause,
}
use diplom_code.Speech.Breaker.{
  transcribe_bounds, transcribe-answer, breaker_counts, breaker_opens, fail_times,
  transcribe_retries,
}
use diplom_code.Metrics.Counting.{counter-run, ring-run, run_incr, run_observe, total, samples}
use diplom_code.Dispatch.{Plugin, call_plugins, note_join}
use diplom_code.Dispatch.Order.{exception_stops, join_enables}
use diplom_code.Sessions.{is_module_enabled_for_session}
use diplom_code.Sessions.Laws.{choice}

abbrev a_push : Push
a_push = record {
  session_id = pos 4;
  ts = pos 1500;
  kind = "face";
  participant_id = some "p";
  trace_id = none;
  content = end;
}

abbrev pushes : List Push
pushes = a_push ∷ record a_push { session_id = pos 2 } ∷ record a_push { kind = "text" } ∷ []

snapshot-run_example :
    snapshot_session (pos 4) (run pushes []) ≡ last_n 512 (history (pos 4) pushes)
snapshot-run_example = snapshot-run (pos 4) pushes

session_ids-run_example :
    any (λ i. i == pos 2) (session_ids (run pushes [])) ≡ any (λ p. p.session_id == pos 2) pushes
session_ids-run_example = session_ids-run (pos 2) pushes

session_ids-Ascending_example : Ascending ◌<ℤ◌ (session_ids (run pushes []))
session_ids-Ascending_example = session_ids-Ascending pushes

abbrev limits : Limits
limits = record {
  retries = pos 2;
  backoff_sec = pos 500;
  failure_threshold = pos 3;
  open_sec = pos 9000;
}

abbrev replies : ℕ → Reply
replies zero = http_error "503" "busy"
replies (suc n) = answer (str "hello")

abbrev no_change : Circuit → Circuit
no_change c = c

breaker_counts_example :
    lookup_or "asr" closed
      (fail_times limits "asr" (pos 1 ∷ pos 2 ∷ []) (("asr", (pos 0, pos 7)) ∷ []))
    ≡ (pos 2, pos 7)
unfolding lookup_or lookup
breaker_counts_example =
    breaker_counts limits "asr" (pos 1 ∷ pos 2 ∷ []) (("asr", (pos 0, pos 7)) ∷ []) (pos 7) refl
      (omega arith)

breaker_opens_example :
    lookup_or "asr" closed
      (fail_times limits "asr" ((pos 1 ∷ pos 2 ∷ []) ++ pos 3 ∷ []) (("asr", (pos 0, pos 7)) ∷ []))
    ≡ (pos 0, pos 9003)
unfolding lookup_or lookup
breaker_opens_example =
    breaker_opens limits "asr" (pos 1 ∷ pos 2 ∷ []) (pos 3) (("asr", (pos 0, pos 7)) ∷ []) (pos 7)
      refl refl

abbrev a_call : Call
a_call = transcribe_audio_chunk "asr" limits replies (pos 1000) (pos 2000) no_change []

transcribe_bounds_example :
    (a_call.requests ≤ 3)
    × (length a_call.sleeps ≤ a_call.requests - 1)
    × ((a_call.circuit ≡ []) ⊎ (false ≡ false))
unfolding lookup_or lookup
transcribe_bounds_example =
    transcribe_bounds "asr" limits replies (pos 1000) (pos 2000) no_change []

transcribe_retries_example : 1 ≤ a_call.requests
unfolding lookup_or lookup
transcribe_retries_example =
    transcribe_retries "asr" limits replies (pos 1000) (pos 2000) no_change [] 2 refl refl

transcribe-answer_example :
    (a_call.result ≡ ok (str "hello"))
    × (a_call.requests ≡ 2)
    × ((j : String)
        → lookup_or j closed a_call.circuit
          ≡ (if "asr" == j then closed else lookup_or j closed []))
unfolding lookup_or lookup pause
transcribe-answer_example =
    transcribe-answer "asr" limits replies (pos 1000) (pos 2000) no_change [] 1 (str "hello") refl
      first_fails first_waits refl (omega arith)
  where
    first_waits : (i : ℕ) → i < 1 → IsOk (pause limits.backoff_sec i)
    first_waits zero h = tt
    first_waits (suc i) h = absurd (omega arith)

    first_fails : (i : ℕ) → i < 1 → is_failure (replies i) ≡ true
    first_fails zero h = refl
    first_fails (suc i) h = absurd (omega arith)

counter-run_example :
    lookup_or "a" (pos 0) (run_incr (("a", pos 2) ∷ ("b", pos 1) ∷ ("a", pos 3) ∷ []) [])
    ≡ total "a" (("a", pos 2) ∷ ("b", pos 1) ∷ ("a", pos 3) ∷ [])
counter-run_example = counter-run "a" (("a", pos 2) ∷ ("b", pos 1) ∷ ("a", pos 3) ∷ [])

ring-run_example :
    lookup_or "face" [] (run_observe ((" face", pos 5) ∷ ("face", negsuc 3) ∷ []) [])
    ≡ last_n 256 (samples "face" ((" face", pos 5) ∷ ("face", negsuc 3) ∷ []))
ring-run_example = ring-run thousandths_lower "face" ((" face", pos 5) ∷ ("face", negsuc 3) ∷ [])

abbrev writes : Plugin String (List String)
writes = record {
  priority = some (pos 50);
  can_handle = λ _. true;
  process = λ msg log. (ok tt, log ++ msg ∷ []);
}

abbrev fails : Plugin String (List String)
fails = record {
  priority = none;
  can_handle = λ _. true;
  process = λ msg log. (raise "ValueError", log);
}

exception_stops_example :
    call_plugins ((writes ∷ []) ++ fails ∷ writes ∷ []) "hi" [] ≡ (raise "ValueError", "hi" ∷ [])
unfolding call_plugins
exception_stops_example =
    exception_stops (writes ∷ []) (writes ∷ []) fails "hi" [] ("hi" ∷ []) ("hi" ∷ []) "ValueError"
      refl refl refl

abbrev join_message : Fields
join_message = field "type" (str "join") (
    field "session_id" (int (pos 7)) (
      field "payload" (obj (field "analysis_modules" (obj (field "face" (bool false) end)) end))
        end))

join_enables_example :
    is_module_enabled_for_session (some (pos 7)) "face" true (note_join join_message [])
    ≡ choice "face" true (field "face" (bool false) end)
unfolding strip lstrip rstrip is_space
join_enables_example =
    join_enables join_message (field "analysis_modules" (obj (field "face" (bool false) end)) end)
      (field "face" (bool false) end) (pos 7) (pos 7) [] "face" true refl refl refl refl
