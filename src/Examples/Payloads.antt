-- ===== src/Examples/Payloads.antt =====
-- The theorems about payloads and transcripts at concrete inputs.
use diplom_code.Base.{
  ◌≡◌, refl, ℕ, zero, suc, ℤ, pos, negsuc, String, true, false, ◌||◌, none, some, List, [], ◌∷◌,
  ◌==◌, string_eq, int_eq, is_blank, strip, lstrip, rstrip, is_space,
}
use diplom_code.Base.Dict.{Dict, lookup}
use diplom_code.Py.{
  null, bool, str, arr, obj, nil, cons, end, field, Fields, get, Result, ok, raise,
}
use diplom_code.Examples.Numbers.{thousandths, thousandths_laws}
use diplom_code.Face.Region.{
  Box, clamp_face_region, fit_box, too_large, cut, InFrame, clamp-InFrame,
}
use diplom_code.Face.Schema.{build_face_behavior_v1, build_face_behavior_v1_mediapipe}
use diplom_code.Face.Schema.Behavior.{
  valid-build_face_behavior_v1, valid-build_face_behavior_v1_mediapipe,
}
use diplom_code.Contracts.{is_valid_face_behavior_v1}
use diplom_code.Asr.{Engine, heard, decode_media, transcribe_float32_window}
use diplom_code.Asr.Stream.{
  TranscribeRequest, Streams, on_chunk, on_bytes, on_media, media_of, on_samples, is_final, is_due,
  on_window, heard_reply, emit_text, whisper_sync, stream_key, current,
}
use diplom_code.Asr.Stream.Repeats.{text_is_new, other_streams_kept}
use diplom_code.Text.{normalize_asr_response, has_transcript_content}
use diplom_code.Text.Content.{speaks, segments_speak, segments_of, has_content-normalize}
use diplom_code.Sessions.{set_session_modules, is_module_enabled_for_session}
use diplom_code.Sessions.Laws.{choice, is_enabled-set}

-- What a function that does not raise returns.
abbrev value_of : {A : Type 0} → A → Result A → A
value_of default (ok x) = x
value_of default (raise e) = default

abbrev a_box : Box
a_box = record { x = negsuc 4; y = pos 10; w = pos 50; h = pos 60 }

abbrev a_cut_box : Box
a_cut_box = record { x = pos 0; y = pos 10; w = pos 50; h = pos 60 }

clamp-InFrame_example : InFrame a_cut_box (pos 100) (pos 80) (pos 10)
unfolding clamp_face_region fit_box too_large cut
clamp-InFrame_example = clamp-InFrame a_box (pos 100) (pos 80) (pos 10) (pos 450) a_cut_box refl

abbrev scores : Dict String ℤ
scores = ("happy", pos 80000) ∷ ("neutral", pos 15000) ∷ []

valid-build_face_behavior_v1_example :
    is_valid_face_behavior_v1
      (build_face_behavior_v1 "deepface" "face_behavior.v1" (pos 900) scores true none none none)
    ≡ true
unfolding is_blank strip lstrip rstrip is_space
valid-build_face_behavior_v1_example =
    valid-build_face_behavior_v1 thousandths_laws "deepface" "face_behavior.v1" (pos 900) scores
      true none none none refl refl

valid-build_face_behavior_v1_mediapipe_example :
    is_valid_face_behavior_v1 (
      build_face_behavior_v1_mediapipe "face_behavior.v1"
        (pos 900)
        (("jawOpen", pos 300) ∷ [])
        none
        true
        none
        none
        none)
    ≡ true
unfolding is_blank strip lstrip rstrip is_space
valid-build_face_behavior_v1_mediapipe_example =
    valid-build_face_behavior_v1_mediapipe thousandths_laws "face_behavior.v1" (pos 900)
      (("jawOpen", pos 300) ∷ []) none true none none none refl

abbrev zeros : ℕ → List ℕ
zeros zero = []
zeros (suc n) = 0 ∷ zeros n

abbrev engine : Engine ℤ
engine = record {
  base64_decode = λ _. some (zeros 256);
  ffmpeg = λ _ _. (some (pos 9 ∷ pos 8 ∷ []), "");
  model = λ _ _. heard (" hello " ∷ []) (pos 700) none;
  model_size = "base";
  env_language = none;
  window_seconds = pos 0;
  step_seconds = pos 0;
}

abbrev a_request : TranscribeRequest
a_request = record {
  session_id = pos 7;
  participant_id = "p";
  audio = field "chunk_base64" (str "AAAA") end;
}

abbrev answered : Fields × Streams
answered = value_of (end, []) (whisper_sync engine a_request [])

text_is_new_example :
    (("hello" == (current (stream_key a_request) []).last_text) ≡ false)
    × ((current (stream_key a_request) answered.1).last_text ≡ "hello")
unfolding whisper_sync on_chunk is_blank on_bytes on_media media_of decode_media on_samples is_final
    is_due current lookup on_window heard_reply emit_text transcribe_float32_window
text_is_new_example = text_is_new engine a_request [] answered "hello" refl refl refl refl

abbrev others : Streams
others = ("7:q", record { last_text = "x"; last_duration = pos 3 }) ∷ []

abbrev answered_beside : Fields × Streams
answered_beside = value_of (end, []) (whisper_sync engine a_request others)

other_streams_kept_example : lookup "7:q" answered_beside.1 ≡ lookup "7:q" others
unfolding whisper_sync on_chunk is_blank on_bytes on_media media_of decode_media on_samples is_final
    is_due current lookup on_window heard_reply emit_text transcribe_float32_window
other_streams_kept_example =
    other_streams_kept engine a_request others answered_beside "7:q" refl refl

abbrev a_response : Fields
a_response = field "segments" (arr (cons (obj (field "text" (str " hi ") end)) nil)) end

has_content-normalize_example : has_transcript_content (normalize_asr_response a_response) ≡ (
    (((speaks null || speaks null) || segments_speak (segments_of (get "segments" a_response))))
    || (speaks null || speaks null))
has_content-normalize_example = has_content-normalize a_response

is_enabled-set_example :
    is_module_enabled_for_session
      (some (pos 7))
      "face"
      true
      (set_session_modules (pos 7) (field "face" (bool false) end) [])
    ≡ choice "face" true (field "face" (bool false) end)
unfolding strip lstrip rstrip is_space
is_enabled-set_example =
    is_enabled-set (pos 7) (pos 7) (field "face" (bool false) end) [] "face" true
