-- ===== src/Lib.antt =====
-- The AI gateway of a meeting service and its speech service (code/ai-gateway and
-- code/speech-service, in Python), as definitions that run and theorems about them.
--
-- The gateway joins a meeting over a websocket, runs analysis modules on the audio and the video it
-- receives, keeps their results in a feature store, and sends reports built from it. The speech
-- service turns chunks of audio into text; the gateway calls it over HTTP.
--
-- The files, and the code that each of them models:
--   Base, Py             names that all share: tests, lists, integers, texts, dictionaries; Python's
--                        values, exceptions and the arithmetic that the program relies on
--   Dispatch             handlers.py: what happens to one message; Dispatch/Order
--   Contracts            contracts.py: the envelope and the face behaviour validator
--   Hybrid               hybrid_contract.py: the validators of messages; Hybrid/Producers: messages
--                        that the gateway builds; Hybrid/Accepted: the validator for a type
--   Act                  the state that the plugins share, and actions on it with exceptions; Act/Laws:
--                        sums of counters; Act/Keeps: predicates that actions keep; Act/Sent: the
--                        messages sent
--   Store                feature_store.py; Store/History: the store against all pushes
--   Metrics              observability.py; Metrics/Counting, Metrics/Summary
--   Sessions             modules/shared/session_modules.py; Sessions/Laws
--   Speech               adapters/speech_service.py; Speech/Breaker: the circuit breaker, the retries
--   Config               gateway_config.py; Config/Reload, Config/Snapshot
--   Client               ws_client.py; Client/Backoff: the delays between connections
--   Face/Region          modules/face/region_util.py
--   Face/Schema          modules/face/schema.py; its children Matrix (head pose), Deepface (results of
--                        DeepFace) and Behavior (the payloads against the validator of Contracts)
--   Face/Params          modules/face/params.py
--   Face/Analysis        modules/face/analysis.py: Landmarks (in pixels), Emit (the messages), Gate (what
--                        is made of a face), Process (the plugin); Process/Kept, Outcome, Sends and
--                        Throttle are about the plugin
--   Audio/Signal         modules/audio/signal.py; Signal/Bounds
--   Audio/Pipeline       modules/audio/pipeline.py; its children Kept, Histories and Sends
--   Report/Quality       modules/report/data_quality.py, with Quality/Laws
--   Report/FaceSummary   modules/report/face_behavior.py, with FaceSummary/Totals
--   Report/Orchestrator  modules/report/orchestrator.py
--   Report/Windowing     modules/report/windowing.py, with Windowing/Totals
--   Report/Stub          modules/report/stub_builder.py: Collect (the loop over the features),
--                        Summaries, Meeting (the rollup and the whole report), Json and Render (the
--                        report as a dictionary); Stub/Totals
--   Report/Round         orchestrator.py, report_loop.py and own_nn_client.py: the report body, a round of
--                        the loop; Round/Sends
--   Report/Sanitize      the sanitizer of report_loop.py; its children Values, Fusion, Behavior follow
--                        the functions of the code, Shape says what the result looks like
--   Text                 modules/text/normalize.py; Text/Content
--   Text/Features        modules/text/features.py; Features/Phrases
--   Text/Transcription   modules/text/transcription.py; its children Kept, Counters and Outcome
--   Asr                  asr_whisper.py and main.py of the speech service; Asr/Stream: the endpoint and
--                        the state of the streams; Asr/Stream/Repeats
--   Plugins              modules/registry.py, modules/ping/handler.py, and a message through the whole
--                        gateway; Plugins/Named: the names in configurations; Plugins/Sends
--   Examples             the theorems at concrete inputs
-- Paths without a directory of the repository in front are relative to code/ai-gateway.
--
-- How the code is read:
--   - A module's global state (a dictionary, a counter, the configuration) is an argument and a result
--     of the functions that use it. What runs under one lock is one function. Between two locked
--     sections of one function other threads may act: the speech adapter takes what they do to its
--     table as an argument. The speech service runs its chunks on a pool of one worker, its default,
--     so a chunk is one step.
--   - JSON is a data type with Python's cases; a dictionary is a list of entries in the order of
--     insertion, its keys are texts. A raised exception is the value `raise` with the name of its
--     class.
--   - `Runtime` is what the code uses of double precision arithmetic, of the tables of Unicode and of
--     `str`; it is a parameter. `IsDouble` states the facts of IEEE 754 that some theorems need: the
--     order of 0.0 and 1.0, that 1.0 - x stays between them, that rounding does not cross them, the
--     signs of quotients, roots and sums, and that a proper fraction is at most one; `IsLower` states
--     what one theorem needs of `str.lower`.
--     Examples/Numbers is a concrete one, with numbers of three digits behind the point. Integers that
--     become doubles are in the range of a double, but for the power of two in the delay of a retry,
--     whose overflow is an exception, as are those of `time.sleep`; and a list of pairs in place
--     of a dictionary of parameters is taken for an error.
--   - A message is handled in one step; Dispatch takes any plugins that work on the whole state, and
--     the interval between polls of the configuration is an argument, read from a proper number.
--   - What a plugin does is an action on the gateway and on what the plugins share: an exception ends
--     it, and what it wrote before stays written. Sends are numbered, and an argument says which of
--     them raise what exception.
--   - The clock, the files, the replies of HTTP, of ffmpeg and of the speech model are arguments.
--   - Loops over a list, over the attempts that are left, or over the rounds of a connection are
--     structural recursion; no fuel is used. The endless loop of `connect` is a run over any list of
--     rounds.
--
-- Not modelled: logging; what DeepFace, MediaPipe, OpenCV, numpy and ffmpeg compute, which are
-- arguments; the semaphore around DeepFace and other messages that are handled while a plugin waits;
-- the sleep between two rounds of report_loop.py; the HTTP requests themselves; the scripts
-- and tests; the meeting backend in Go and the user interface.
pub mod Base
pub mod Py
pub mod Contracts
pub mod Face
pub mod Store
pub mod Metrics
pub mod Sessions
pub mod Speech
pub mod Config
pub mod Client
pub mod Hybrid
pub mod Report
pub mod Asr
pub mod Text
pub mod Examples
pub mod Dispatch
pub mod Act
pub mod Plugins
pub mod Audio
