-- ===== src/Audio/Signal.antt =====
-- code/ai-gateway/modules/audio/signal.py: what is read off one chunk of audio. Base64 and the mean
-- and the standard deviation of numpy are parameters.
pub mod Bounds
use diplom_code.Base.{
  ◌≡◌, refl, ℕ, zero, suc, ◌+◌, ◌-◌, ◌≤◌, ◌<◌, ℤ, pos, negsuc, String, Bool, true, false, not, ◌&&◌,
  ◌||◌, Option, none, some, List, [], ◌∷◌, ◌++◌, ◌==◌, string_eq, nat_eq, int_eq, ltb, leb, eqb,
  if◌then◌else◌, arith, ap, sym, ◌∙◌, subst, inl, inr, ◌⊎◌, Bool-cases, Option-cases, length, map,
  All, filter, is_nil, is_blank, is_empty, strip, ◌≢◌, ◌↔◌, ◌+ℤ◌, ◌-ℤ◌, ◌*ℤ◌, ◌≤ℤ◌, ◌<ℤ◌, ltb_ℤ,
  leb_ℤ, eqb_ℤ, min_ℤ, max_ℤ, pos_part, neg_part, sub_ℕ, ◌*◌, ◌/◌, ◌^◌, ◌<>◌, last_n, take, drop,
  any, all, get_elem?, sort_by, length-append, last_n-append, take_text, length_text, max, min, ◌%◌,
}
use diplom_code.Base.Dict.{Dict, keys, lookup, lookup_or, insert, lookup-insert, lookup_or-insert}
use diplom_code.Py.{
  Runtime, IsDouble, null, bool, int, float, str, arr, obj, nil, cons, end, field, Value, Items,
  Fields, get, get_or, has, fields, items, number, truthy, or_else, text_of, is_filled, is_str,
  is_dict, is_list, is_bool, is_null, dict_or_empty, zero_f, one_f, min_f, max_f, set_field, update,
  opt_str, opt_float, opt_int, Result, ok, raise, ◌>>=◌, ◌>>◌, require,
}
use diplom_code.Act.{int_arg, float_arg}

module _ ⦃rt : Runtime⦄ where
  open rt use {F, lit, of_int, lt, add, mul, div, sqrt, round_at}

  pub record Numpy : Type 0 where
    -- `base64.b64decode(s, validate=False)`; none is an exception
    pub base64_decode : String → Option (List ℕ)
    pub mean : List F → F
    pub std : List F → F

  -- `_decode_b64_chunk`
  unfoldable pub decode_b64_chunk : Numpy → Fields → List ℕ
  decode_b64_chunk np payload = decoded (
      or_else (or_else (get "chunk_base64" payload) (get "data_base64" payload))
        (get "base64" payload))
    where
      bytes_of : Option (List ℕ) → List ℕ
      bytes_of none = []
      bytes_of (some bs) = bs

      decoded : Value → List ℕ
      decoded (str s) = if is_blank s then [] else bytes_of (np.base64_decode s)
      decoded _ = []

  -- The little-endian signed 16-bit number in two bytes.
  abbrev pub s16 : ℕ → ℕ → ℤ
  s16 low high = let u = low + 256 * high in if ltb u 32768 then pos u else sub_ℕ u 65536

  -- `np.frombuffer(..., dtype="<i2")`; an odd byte at the end is left over.
  unfoldable pub samples_of : List ℕ → List ℤ
  samples_of [] = []
  samples_of (low ∷ []) = []
  samples_of (low ∷ high ∷ bs) = s16 low high ∷ samples_of bs

  abbrev pub sign_of : ℤ → ℤ
  sign_of n = if ltb_ℤ n (pos 0) then negsuc 0 else if ltb_ℤ (pos 0) n then pos 1 else pos 0

  -- Neighbours of different sign, after a sample of sign `s`.
  unfoldable pub changes_after : ℤ → List ℤ → ℕ
  changes_after s [] = 0
  changes_after s (x ∷ xs) = (if eqb_ℤ (sign_of x) s then 0 else 1) + changes_after (sign_of x) xs

  abbrev pub sign_changes : List ℤ → ℕ
  sign_changes [] = 0
  sign_changes (x ∷ xs) = changes_after (sign_of x) xs

  pub record WindowStats : Type 0 where
    pub energy_rms_norm : F
    pub zero_crossing_rate : F
    pub pcm_samples_used : ℕ
    pub pcm_s16_like : Bool

  abbrev pub no_stats : WindowStats
  no_stats = record {
    energy_rms_norm = zero_f;
    zero_crossing_rate = zero_f;
    pcm_samples_used = 0;
    pcm_s16_like = false;
  }

  unfoldable pub energy_of : Numpy → List ℤ → F
  energy_of np xs =
      let squares = map (λ n. mul (of_int n) (of_int n)) xs in
      round_at 4 (min_f one_f (div (sqrt (np.mean squares)) (lit 327680 1)))

  unfoldable pub crossing_rate : List ℤ → F
  crossing_rate xs =
      round_at 4 (div (of_int (pos (sign_changes xs))) (of_int (pos (max 1 (length xs - 1)))))

  -- `_s16le_window_stats`
  unfoldable pub window_stats : Numpy → List ℕ → ℤ → WindowStats
  window_stats np buf max_samples =
      let wanted = min (length buf) (max 4 (2 * pos_part max_samples)) in
      let xs = samples_of (take (wanted - wanted % 2) buf) in
      if ltb (length buf) 4 || is_empty xs then no_stats else record {
        energy_rms_norm = energy_of np xs;
        zero_crossing_rate = crossing_rate xs;
        pcm_samples_used = length xs;
        pcm_s16_like = true;
      }

  -- The keyword arguments of `extract_audio_features`.
  pub record Timing : Type 0 where
    pub inter_arrival_ms : Option F
    pub duration_ms_override : Option F
    pub rms_history : Option (List F)
    pub iat_history_ms : List F

  -- `x` where it is a positive number, else 3500.0
  abbrev pub positive_or_default : Option F → F
  positive_or_default none = lit 35000 1
  positive_or_default (some x) = if lt zero_f x then x else lit 35000 1

  unfoldable pub duration_of : Option F → Value → F
  duration_of none timeslice = positive_or_default (number timeslice)
  duration_of (some x) timeslice = if lt zero_f x then x else positive_or_default (number timeslice)

  unfoldable pub speech_proxy : ℕ → ℤ → F
  speech_proxy size min_chunk_bytes =
      if ltb_ℤ (pos size) min_chunk_bytes
      then zero_f
      else min_f one_f (round_at 3 (div (of_int (pos size)) (lit 120000 1)))

  unfoldable pub pause_ratio : F → F → Option F → F
  pause_ratio threshold duration none = zero_f
  pause_ratio threshold duration (some iat) =
      if lt threshold iat then min_f one_f (div iat (add iat (max_f duration one_f))) else zero_f

  abbrev pub map_opt : (F → F) → Option F → Option F
  map_opt f none = none
  map_opt f (some x) = some (f x)

  abbrev pulses_per_min : Option F → Option F
  pulses_per_min none = none
  pulses_per_min (some iat) =
      if lt zero_f iat then some (round_at 2 (div (lit 600000 1) iat)) else none

  abbrev if_two : List F → (List F → F) → F
  if_two (x ∷ y ∷ xs) f = f (x ∷ y ∷ xs)
  if_two _ f = zero_f

  abbrev or_empty : Option (List F) → List F
  or_empty none = []
  or_empty (some xs) = xs

  abbrev mime_of : Value → Value
  mime_of (str s) = str s
  mime_of _ = str "audio/webm"

  unfoldable pub features_of : Numpy → Fields → Timing → List ℕ → ℤ → ℤ → F → Fields
  features_of np payload t raw min_chunk_bytes max_samples threshold =
      let size = length raw in
      let duration = duration_of t.duration_ms_override (get "timeslice_ms" payload) in
      let stats = window_stats np raw max_samples in
      fields (
        ("chunk_size_bytes", int (pos size))
        ∷ ("duration_ms", float duration)
        ∷ (
          "bitrate_kbps_est",
          float (
              if lt zero_f duration
              then round_at 2 (div (mul (of_int (pos size)) (lit 80 1)) duration)
              else zero_f),
        )
        ∷ ("speech_activity_proxy", float (speech_proxy size min_chunk_bytes))
        ∷ ("energy_rms_norm", float stats.energy_rms_norm)
        ∷ ("zero_crossing_rate", float stats.zero_crossing_rate)
        ∷ ("pcm_samples_used", int (pos stats.pcm_samples_used))
        ∷ ("pcm_s16_like", bool stats.pcm_s16_like)
        ∷ ("pause_ratio", float (round_at 4 (pause_ratio threshold duration t.inter_arrival_ms)))
        ∷ ("chunk_interval_ms", opt_float (map_opt (round_at 2) t.inter_arrival_ms))
        ∷ ("activity_pulses_per_min", opt_float (pulses_per_min t.inter_arrival_ms))
        ∷ ("timing_jitter_ms", float (if_two t.iat_history_ms (λ xs. round_at 2 (np.std xs))))
        ∷ (
          "shimmer_proxy",
          float (
              if_two (or_empty t.rms_history)
                (λ xs. round_at 4 (div (np.std xs) (add (np.mean xs) (lit 1 6))))),
        )
        ∷ (
          "final_chunk",
          bool (truthy (or_else (get "final_chunk" payload) (get "is_final" payload))),
        )
        ∷ ("mime", mime_of (get "mime" payload))
        ∷ (
          "note",
          str "baseline-v3; int16-heuristic on raw chunk bytes; container codecs not demuxed",
        )
        ∷ [])

  unfoldable pub extract_audio_features : Numpy → Fields → Fields → Timing → Result Fields
  extract_audio_features np payload params t = do
    min_chunk_bytes ← int_arg (get_or "min_chunk_bytes" (int (pos 400)) params)
    max_samples ← int_arg (get_or "max_rms_samples" (int (pos 8000)) params)
    threshold ← float_arg (get_or "pause_threshold_ms" (int (pos 2000)) params)
    ok (
        features_of np payload t (decode_b64_chunk np payload) min_chunk_bytes max_samples
          threshold)

  -- What is told of a chunk when the extraction raises an exception.
  unfoldable pub degraded_features : Fields → Fields
  degraded_features payload = fields (
      ("chunk_size_bytes", int (pos 0))
      ∷ ("duration_ms", float (positive_or_default (number (get "timeslice_ms" payload))))
      ∷ ("bitrate_kbps_est", float zero_f)
      ∷ ("speech_activity_proxy", float zero_f)
      ∷ ("energy_rms_norm", float zero_f)
      ∷ ("zero_crossing_rate", float zero_f)
      ∷ ("pcm_samples_used", int (pos 0))
      ∷ ("pcm_s16_like", bool false)
      ∷ ("pause_ratio", float zero_f)
      ∷ ("chunk_interval_ms", null)
      ∷ ("activity_pulses_per_min", null)
      ∷ ("timing_jitter_ms", float zero_f)
      ∷ ("shimmer_proxy", float zero_f)
      ∷ (
        "final_chunk",
        bool (truthy (or_else (get "final_chunk" payload) (get "is_final" payload))),
      )
      ∷ ("mime", str "audio/webm")
      ∷ ("note", str "degraded: extraction failed")
      ∷ ("degraded", bool true)
      ∷ [])

  abbrev pub or_degraded : Fields → Result Fields → Fields
  or_degraded payload (ok fs) = fs
  or_degraded payload (raise e) = degraded_features payload

  unfoldable pub extract_audio_features_safe : Numpy → Fields → Fields → Timing → Fields
  extract_audio_features_safe np payload params t =
      or_degraded payload (extract_audio_features np payload params t)
