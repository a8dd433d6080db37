-- ===== src/Asr.antt =====
-- code/speech-service/asr_whisper.py and the engine names of code/speech-service/main.py: what the
-- speech service makes of the replies of ffmpeg and of the model. Both programs are parameters, and
-- so are the settings that the environment gives.
pub mod Stream
use Prim.Native.Char.{code}
use diplom_code.Base.{
  ◌≡◌, refl, ℕ, zero, suc, ◌+◌, ◌-◌, ◌≤◌, ◌<◌, ℤ, pos, negsuc, String, Bool, true, false, not, ◌&&◌,
  ◌||◌, Option, none, some, List, [], ◌∷◌, ◌++◌, ◌==◌, string_eq, nat_eq, int_eq, ltb, leb, eqb,
  if◌then◌else◌, arith, ap, sym, ◌∙◌, subst, inl, inr, ◌⊎◌, Bool-cases, Option-cases, length, map,
  All, filter, is_nil, is_blank, is_empty, strip, ◌≢◌, ◌↔◌, ◌+ℤ◌, ◌-ℤ◌, ◌*ℤ◌, ◌≤ℤ◌, ◌<ℤ◌, ltb_ℤ,
  leb_ℤ, eqb_ℤ, min_ℤ, max_ℤ, pos_part, neg_part, sub_ℕ, ◌*◌, ◌/◌, ◌^◌, ◌<>◌, last_n, take, drop,
  any, all, get_elem?, sort_by, length-append, last_n-append, take_text, length_text, occurs,
}
use diplom_code.Base.Dict.{Dict, keys, lookup, lookup_or, insert, lookup-insert, lookup_or-insert}
use diplom_code.Text.{join}
use diplom_code.Py.{
  Runtime, IsDouble, null, bool, int, float, str, arr, obj, nil, cons, end, field, Value, Items,
  Fields, get, get_or, has, fields, items, number, truthy, or_else, text_of, is_filled, is_str,
  is_dict, is_list, is_bool, is_null, dict_or_empty, zero_f, one_f, min_f, max_f, set_field, update,
  opt_str, opt_float, opt_int, Result, ok, raise, ◌>>=◌, ◌>>◌, require,
}

-- `s.replace("_", "-")`
dashes : String → String
dashes String.[] = String.[]
dashes (String.◌∷◌ c s) = String.◌∷◌ (if eqb (code c) 95 then "-" else c) (dashes s)

-- What the model answers: an exception of `model.transcribe`, which is caught, with its class and
-- message; an exception before that call, of the settings or of loading the model, or while its
-- segments are read, which is not caught; or the texts of its segments with the probability of the
-- language and the language that it heard.
pub data ModelReply (F : Type 0) : Type 0 where
  failed : String → String → ModelReply F
  escaped : String → ModelReply F
  heard : List String → F → Option String → ModelReply F

-- The programs and settings around the speech service.
pub record Engine (F : Type 0) : Type 0 where
  -- `base64.b64decode(s, validate=False)`; none is an exception
  pub base64_decode : String → Option (List ℕ)
  -- the 16-bit samples on stdout if the return code is 0, and stderr
  pub ffmpeg : List ℕ → String → Option (List ℤ) × String
  pub model : List F → Option String → ModelReply F
  pub model_size : String
  -- WHISPER_LANGUAGE
  pub env_language : Option String
  -- WHISPER_WINDOW_SECONDS and WHISPER_STEP_SECONDS
  pub window_seconds : F
  pub step_seconds : F

-- `s.split(";")[0]`
before_semicolon : String → String
before_semicolon String.[] = String.[]
before_semicolon (String.◌∷◌ c s) =
    let rest = before_semicolon s in if eqb (code c) 59 then String.[] else String.◌∷◌ c rest

abbrev pub Meta : Type 0 → Type 0
Meta F = F × String × Option (String × String)

module _ ⦃rt : Runtime⦄ where
  open rt use {F, lit, lower, is_zero, div, of_int}

  abbrev engine_of : String → String
  engine_of e =
      if e == "" || e == "none"
      then "stub"
      else if e == "faster-whisper" || e == "fast-whisper"
      then "whisper"
      else e

  -- `_canonical_asr_engine`
  unfoldable pub canonical_asr_engine : Option String → String
  unfolding dashes
  canonical_asr_engine none = "stub"
  canonical_asr_engine (some raw) =
      if is_blank raw then "stub" else engine_of (dashes (lower (strip raw)))

  unfoldable pub suffix_from_mime : String → String
  unfolding before_semicolon
  suffix_from_mime mime =
      let m = lower (strip (before_semicolon mime)) in
      if occurs "wav" m
      then ".wav"
      else if occurs "ogg" m
      then ".ogg"
      else if occurs "mp4" m || occurs "m4a" m
      then ".m4a"
      else ".webm"

  unless_auto : String → Option String
  unless_auto v = if v == "auto" || v == "detect" || v == "none" then none else some v

  language_of_env : Option String → Option String
  unfolding unless_auto
  language_of_env none = some "ru"
  language_of_env (some raw) = if is_blank raw then some "ru" else unless_auto (lower (strip raw))

  -- `_effective_asr_language`
  unfoldable pub effective_asr_language : Option String → Option String → Option String
  unfolding unless_auto language_of_env
  effective_asr_language env none = language_of_env env
  effective_asr_language env (some explicit) =
      if is_blank explicit then language_of_env env else unless_auto (lower (strip explicit))

  abbrev text_or : Option String → String → String
  text_or none default = default
  text_or (some s) default = if is_nil s then default else s

  abbrev first_text : Option String → Option String → String
  first_text none lang = text_or lang "unknown"
  first_text (some s) lang = if is_nil s then text_or lang "unknown" else s

  abbrev join_all : List String → String
  join_all [] = ""
  join_all (p ∷ ps) = join p ps

  abbrev pub is_said : String → Bool
  is_said s = not (is_blank s)

  abbrev window_of : Option String → ModelReply F → Result (String × Meta F)
  window_of lang (failed error message) =
      ok ("", (lit 0 1, text_or lang "unknown", some (error, take_text 240 message)))
  window_of lang (escaped e) = raise e
  window_of lang (heard segments probability language) = ok (
    strip (join_all (map strip (filter is_said segments))),
    (if is_zero probability then lit 5 1 else probability, first_text language lang, none),
  )

  unfoldable pub transcribe_float32_window :
      Engine F → List F → Option String → Result (String × Meta F)
  transcribe_float32_window e segment language =
      let lang = effective_asr_language e.env_language language in
      window_of lang (e.model segment lang)

  abbrev ffmpeg_message : String → String
  ffmpeg_message err = take_text 240 (strip (if is_nil err then "ffmpeg decode failed" else err))

  abbrev decoded_of : Option (List ℤ) × String → (String × String) ⊎ List F
  decoded_of (none, err) = inl ("FFmpegDecodeError", ffmpeg_message err)
  decoded_of (some [], err) = inl ("FFmpegDecodeError", ffmpeg_message err)
  decoded_of (some (x ∷ xs), err) = inr (map (λ s. div (of_int s) (of_int (pos 32768))) (x ∷ xs))

  -- `decode_media_bytes_to_mono16k_float32`: an error with its message, or the samples.
  unfoldable pub decode_media : Engine F → List ℕ → String → (String × String) ⊎ List F
  decode_media e bytes suffix = decoded_of (e.ffmpeg bytes suffix)
