-- ===== src/Audio/Signal/Bounds.antt =====
-- code/ai-gateway/modules/audio/signal.py: the ratios that are told of a chunk.
use diplom_code.Base.{
  ◌||◌, ◌*◌, ◌%◌, ◌≡◌, ℕ, ◌-◌, ◌≤◌, ℤ, pos, true, false, Option, none, some, List, [], ◌∷◌, ltb,
  arith, inl, inr, length, max, min, Bool-cases, ltb_ℤ, pos_part, take, is_empty,
}
use diplom_code.Py.{
  Runtime, IsDouble, NotOutside, int, float, Value, Fields, get, Result, ok, raise, zero_f, one_f,
  min_f, max_f, number, get_or, Holds, Holds->>=,
}
use diplom_code.Audio.Signal.{
  Numpy, Timing, extract_audio_features_safe, extract_audio_features, degraded_features,
  features_of, or_degraded, window_stats, energy_of, crossing_rate, pause_ratio, speech_proxy,
  duration_of, positive_or_default, sign_changes, changes_after, sign_of, samples_of,
  decode_b64_chunk,
}
use diplom_code.Act.{int_arg, float_arg}

module _ ⦃rt : Runtime⦄ where
  open rt use {F, lit, of_int, lt, le, add, div, sqrt}

  -- A float that is neither below 0.0 nor above 1.0.
  abbrev pub InUnit : Value → Type 0
  InUnit (float x) = NotOutside x
  InUnit _ = ⊥

  abbrev pub NonNegative : Option F → Type 0
  NonNegative none = Unit {0}
  NonNegative (some x) = le zero_f x ≡ true

  abbrev pub RatiosInUnit : Fields → Type 0
  RatiosInUnit fs =
      InUnit (get "speech_activity_proxy" fs)
      × InUnit (get "energy_rms_norm" fs)
      × InUnit (get "zero_crossing_rate" fs)
      × InUnit (get "pause_ratio" fs)

  changes-le : (s : ℤ) (xs : List ℤ) → changes_after s xs ≤ length xs
  unfolding changes_after
  changes-le s [] = omega arith
  changes-le s (x ∷ xs) = ground (arith, changes-le (sign_of x) xs)

  sign_changes-le : (xs : List ℤ) → sign_changes xs ≤ max 1 (length xs - 1)
  sign_changes-le [] = ground arith
  sign_changes-le (x ∷ xs) = ground (arith, changes-le (sign_of x) xs)

  module _ (d : IsDouble rt) where
    zero-NotOutside : NotOutside zero_f
    zero-NotOutside = (d.zero-lt-zero, d.one-lt-zero)

    round-NotOutside : (n : ℕ) (x : F) → NotOutside x → NotOutside (rt.round_at n x)
    round-NotOutside n x (h, k) = (d.round-ge-zero n x h, d.round-le-one n x k)

    min_one-NotOutside : (x : F) → lt x zero_f ≡ false → NotOutside (min_f one_f x)
    min_one-NotOutside x h = elim (Bool-cases (lt x one_f)) [
      | inl e ↦ rw e (h, d.lt_asym x one_f e)
      | inr e ↦ rw e (d.one-lt-zero, d.one-lt-one)
    ]

    energy-NotOutside : (np : Numpy) (xs : List ℤ) → NotOutside (energy_of np xs)
    unfolding energy_of
    energy-NotOutside np xs = round-NotOutside 4 _ (
        min_one-NotOutside _
          (d.div-ge-zero _ _ (d.sqrt-ge-zero _) (d.zero-lt-lit 327680 (omega arith))))

    crossing_rate-NotOutside : (xs : List ℤ) → NotOutside (crossing_rate xs)
    unfolding crossing_rate
    crossing_rate-NotOutside xs = round-NotOutside 4 _ (
      d.div-ge-zero _ _ (d.of_int_nonneg (sign_changes xs)) (d.zero-lt-of_int _ (ground arith)),
      d.div-le-one _ _ (sign_changes-le xs) (ground arith),
    )

    speech_proxy-NotOutside : (n : ℕ) (m : ℤ) → NotOutside (speech_proxy n m)
    unfolding speech_proxy
    speech_proxy-NotOutside n m = elim (Bool-cases (ltb_ℤ (pos n) m)) [
      | inl e ↦ rw e zero-NotOutside
      | inr e ↦ rw e (
          min_one-NotOutside _ (
            d.round-ge-zero 3 _
              (d.div-ge-zero _ _ (d.of_int_nonneg n) (d.zero-lt-lit 120000 (omega arith)))))
    ]

    positive-default : (o : Option F) → lt zero_f (positive_or_default o) ≡ true
    positive-default none = d.zero-lt-lit 35000 (omega arith)
    positive-default (some x) = elim (Bool-cases (lt zero_f x)) [
      | inl e ↦ rw e e
      | inr e ↦ rw e (d.zero-lt-lit 35000 (omega arith))
    ]

    duration-positive : (o : Option F) (v : Value) → lt zero_f (duration_of o v) ≡ true
    unfolding duration_of
    duration-positive none v = positive-default (number v)
    duration-positive (some x) v = elim (Bool-cases (lt zero_f x)) [
      | inl e ↦ rw e e
      | inr e ↦ rw e (positive-default (number v))
    ]

    max_one-positive : (x : F) → lt zero_f x ≡ true → lt zero_f (max_f x one_f) ≡ true
    max_one-positive x h = elim (Bool-cases (lt x one_f)) [
      | inl e ↦ rw e (d.zero-lt-lit 10 (omega arith))
      | inr e ↦ rw e h
    ]

    pause_ratio-NotOutside :
        (threshold duration : F) (o : Option F)
        → lt zero_f duration ≡ true
        → NonNegative o
        → NotOutside (pause_ratio threshold duration o)
    unfolding pause_ratio
    pause_ratio-NotOutside threshold duration none h k = zero-NotOutside
    pause_ratio-NotOutside threshold duration (some iat) h k =
        elim (Bool-cases (lt threshold iat)) [
          | inl e ↦ rw e (
              min_one-NotOutside _ (
                d.div-ge-zero _ _ (d.le→not_lt _ _ k)
                  (d.zero-lt-add _ _ k (max_one-positive duration h))))
          | inr e ↦ rw e zero-NotOutside
        ]

    window_stats-NotOutside :
        (np : Numpy) (buf : List ℕ) (n : ℤ)
        → NotOutside (window_stats np buf n).energy_rms_norm
          × NotOutside (window_stats np buf n).zero_crossing_rate
    unfolding window_stats
    window_stats-NotOutside np buf n =
        let wanted = min (length buf) (max 4 (2 * pos_part n)) in
        let xs = samples_of (take (wanted - wanted % 2) buf) in
        elim (Bool-cases (ltb (length buf) 4 || is_empty xs)) [
          | inl e ↦ rw e (zero-NotOutside, zero-NotOutside)
          | inr e ↦ rw e (energy-NotOutside np xs, crossing_rate-NotOutside xs)
        ]

    features_of-RatiosInUnit :
        (np : Numpy) (payload : Fields) (t : Timing) (raw : List ℕ) (m n : ℤ) (threshold : F)
        → NonNegative t.inter_arrival_ms
        → RatiosInUnit (features_of np payload t raw m n threshold)
    unfolding features_of
    features_of-RatiosInUnit np payload t raw m n threshold h =
        let (energy, crossing) = window_stats-NotOutside np raw n in
        (
          speech_proxy-NotOutside (length raw) m,
          energy,
          crossing,
          round-NotOutside 4 _ (
              pause_ratio-NotOutside threshold _ t.inter_arrival_ms
                (duration-positive t.duration_ms_override (get "timeslice_ms" payload)) h),
        )

    or_degraded-RatiosInUnit :
        (payload : Fields) (r : Result Fields)
        → Holds RatiosInUnit r
        → RatiosInUnit (or_degraded payload r)
    unfolding degraded_features
    or_degraded-RatiosInUnit payload (ok fs) h = h
    or_degraded-RatiosInUnit payload (raise e) h =
        (zero-NotOutside, zero-NotOutside, zero-NotOutside, zero-NotOutside)

    extracted-RatiosInUnit :
        (np : Numpy) (payload params : Fields) (t : Timing)
        → NonNegative t.inter_arrival_ms
        → Holds RatiosInUnit (extract_audio_features np payload params t)
    unfolding extract_audio_features
    extracted-RatiosInUnit np payload params t h =
        Holds->>= RatiosInUnit (int_arg (get_or "min_chunk_bytes" (int (pos 400)) params)) _ λ m.
          Holds->>= RatiosInUnit (int_arg (get_or "max_rms_samples" (int (pos 8000)) params)) _ λ n.
            Holds->>= RatiosInUnit (float_arg (get_or "pause_threshold_ms" (int (pos 2000)) params))
              _
              λ threshold.
                features_of-RatiosInUnit np payload t (decode_b64_chunk np payload) m n threshold h

    -- Whatever is in the payload and the parameters, and whether or not the extraction raises an
    -- exception, the speech activity, the energy, the zero crossing rate and the pause ratio that
    -- are told of a chunk are floats neither below 0.0 nor above 1.0, where the time since the
    -- chunk before, if there was one, is not negative.
    pub extract-RatiosInUnit :
        (np : Numpy) (payload params : Fields) (t : Timing)
        → NonNegative t.inter_arrival_ms
        → RatiosInUnit (extract_audio_features_safe np payload params t)
    unfolding extract_audio_features_safe
    extract-RatiosInUnit np payload params t h =
        or_degraded-RatiosInUnit payload (extract_audio_features np payload params t)
          (extracted-RatiosInUnit np payload params t h)
