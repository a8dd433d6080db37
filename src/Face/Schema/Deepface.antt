-- ===== src/Face/Schema/Deepface.antt =====
-- code/ai-gateway/modules/face/schema.py: what DeepFace returns, normalised.
use diplom_code.Base.{
  ℤ, String, Bool, ◌||◌, Option, none, some, [], ◌∷◌, string_eq, nat_eq, int_eq, if◌then◌else◌,
  is_nil, strip, occurs,
}
use diplom_code.Base.Dict.{Dict, lookup_or}
use diplom_code.Py.{
  Runtime, null, int, float, str, arr, obj, cons, end, field, Value, Fields, get, get_or, text_of,
  dict_or_empty, zero_f, Result, ok, raise, ◌>>=◌,
}

module _ ⦃rt : Runtime⦄ where
  open rt use {F, of_int, is_nan, is_finite, parse_float, round_int, lower}

  not_nan : F → Option F
  not_nan x = if is_nan x then none else some x

  abbrev pub or_none {ℓ κ} : {A : Type ℓ} {B : Type κ} → (A → Option B) → Option A → Option B
  or_none f none = none
  or_none f (some a) = f a

  -- `_coerce_float`
  unfoldable pub coerce_float : Value → Option F
  unfolding not_nan
  coerce_float (int n) = not_nan (of_int n)
  coerce_float (float x) = not_nan x
  coerce_float (str s) = or_none not_nan (parse_float s)
  coerce_float _ = none

  -- `_sanitize_emotion_probs`
  unfoldable pub sanitize_emotion_probs : Fields → Dict String F
  unfolding coerce_float
  sanitize_emotion_probs end = []
  sanitize_emotion_probs (field k v fs) =
      let rest = sanitize_emotion_probs fs in
      elim (coerce_float v) [ none ↦ rest | some x ↦ (k, x) ∷ rest ]

  unfoldable pub is_no_face_deepface_error : String → Bool
  is_no_face_deepface_error message =
      let s = lower message in
      occurs "face could not be detected" s
      || occurs "detected face is too small" s
      || occurs "there is no face" s
      || occurs "no face detected" s

  pub record Normalized : Type 0 where
    pub dominant_emotion : String
    pub probs : Dict String F
    pub confidence : F
    pub region_w : Option ℤ
    pub region_h : Option ℤ
    pub region_x : Option ℤ
    pub region_y : Option ℤ

  -- `int(round(x))`: infinities raise.
  rounded : F → Result ℤ
  rounded x = if is_finite x then ok (round_int x) else raise "OverflowError"

  -- Both numbers rounded, if both are there.
  rounded_pair : Option F → Option F → Result (Option ℤ × Option ℤ)
  unfolding rounded
  rounded_pair (some a) (some b) = do m ← rounded a; n ← rounded b; ok (some m, some n)
  rounded_pair _ _ = ok (none, none)

  -- `isinstance(dominant_raw, str)`, else its stripped `str`; none for an empty name
  dominant_name : Value → Option String
  dominant_name null = none
  dominant_name (str s) = if is_nil s then none else some s
  dominant_name v = let s = strip (text_of v) in if is_nil s then none else some s

  finish : String → Dict String F → Fields → Result Normalized
  unfolding rounded_pair coerce_float lookup_or
  finish dominant probs region = do
    (w, h) ← rounded_pair (coerce_float (get "w" region)) (coerce_float (get "h" region))
    (x, y) ←
        rounded_pair (coerce_float (get_or "x" (get "left" region) region))
          (coerce_float (get_or "y" (get "top" region) region))
    ok (record {
      dominant_emotion = dominant;
      probs = probs;
      confidence = lookup_or dominant zero_f probs;
      region_w = w;
      region_h = h;
      region_x = x;
      region_y = y;
    })

  from_parts : Fields → Value → Result (Option Normalized)
  unfolding dominant_name sanitize_emotion_probs finish
  from_parts fs (obj probs_raw) = elim (dominant_name (get "dominant_emotion" fs)) [
    | none ↦ ok none
    | some d ↦ do
      n ← finish d (sanitize_emotion_probs probs_raw) (dict_or_empty (get "region" fs))
      ok (some n)
  ]
  from_parts fs _ = ok none

  unfoldable pub normalize_deepface_result : Value → Result (Option Normalized)
  unfolding from_parts
  normalize_deepface_result (obj fs) = from_parts fs (get "emotion" fs)
  normalize_deepface_result (arr (cons (obj fs) xs)) = from_parts fs (get "emotion" fs)
  normalize_deepface_result _ = ok none
