-- ===== src/Face/Analysis/Landmarks.antt =====
-- code/ai-gateway/modules/face/analysis.py, `_downsample_landmarks`: fewer landmarks, in pixels.
use diplom_code.Base.{
  string_eq, nat_eq, int_eq, ◌≡◌, ℕ, zero, suc, ◌+◌, ◌-◌, ◌≤◌, ℤ, pos, Bool, true, false, ◌&&◌,
  ◌||◌, Option, none, some, List, [], ◌∷◌, ◌++◌, if◌then◌else◌, arith, inl, inr, Bool-cases, length,
  All, is_empty, ltb_ℤ, leb_ℤ, ◌≤ℤ◌, ◌<ℤ◌, max_ℤ, pos_part, length-append,
}
use diplom_code.Py.{
  Runtime, Fields, get, number, Result, ok, raise, ◌>>=◌, Surely, IsOk, Surely->>=,
}

module _ ⦃rt : Runtime⦄ where
  open rt use {F, of_int, mul, div, trunc, round_int, is_finite}

  pub record Point : Type 0 where
    pub x : ℤ
    pub y : ℤ

  -- Every `step`-th element, the first one after `wait` others: `xs[wait::step]`
  unfoldable pub strided : {A : Type 0} → ℕ → ℕ → List A → List A
  strided step wait [] = []
  strided step zero (x ∷ xs) = x ∷ strided step (step - 1) xs
  strided step (suc wait) (x ∷ xs) = strided step wait xs

  -- `int(round(x))`
  unfoldable pub rounded : F → Result ℤ
  rounded x =
      if is_finite x
      then ok (round_int x)
      else raise (if rt.is_nan x then "ValueError" else "OverflowError")

  abbrev pub both : {A : Type 0} → Option A → Option A → Option (A × A)
  both (some a) (some b) = some (a, b)
  both _ _ = none

  unfoldable pub inside : ℤ → ℤ → Point → Bool
  inside frame_w frame_h p =
      leb_ℤ (pos 0) p.x && ltb_ℤ p.x frame_w && leb_ℤ (pos 0) p.y && ltb_ℤ p.y frame_h

  unfoldable pub pixel : ℤ → ℤ → F × F → Result Point
  pixel frame_w frame_h (x, y) = do
    px ← rounded (mul x (of_int frame_w))
    py ← rounded (mul y (of_int frame_h))
    ok (record { x = px; y = py })

  abbrev pub add_if : Bool → Point → List Point → List Point
  add_if b p out = if b then out ++ p ∷ [] else out

  -- One landmark, and the loop on from there unless there are enough; one without numbers is
  -- passed over.
  abbrev pub place_one :
      ℤ
      → ℤ
      → ℤ
      → Option (F × F)
      → List Point
      → (List Point → Result (List Point))
      → Result (List Point)
  place_one frame_w frame_h max_points none out on = on out
  place_one frame_w frame_h max_points (some xy) out on = do
    p ← pixel frame_w frame_h xy
    let out' = add_if (inside frame_w frame_h p) p out
    (if leb_ℤ max_points (pos (length out')) then ok out' else on out')

  -- The loop, with what it has put out so far.
  unfoldable pub place : ℤ → ℤ → ℤ → List Fields → List Point → Result (List Point)
  place frame_w frame_h max_points [] out = ok out
  place frame_w frame_h max_points (lm ∷ lms) out =
      place_one frame_w frame_h max_points (both (number (get "x" lm)) (number (get "y" lm))) out
        (λ out'. place frame_w frame_h max_points lms out')

  unfoldable pub downsample_landmarks : List Fields → ℤ → ℤ → ℤ → Result (List Point)
  downsample_landmarks lms frame_w frame_h max_points =
      if is_empty lms || leb_ℤ max_points (pos 0)
      then ok []
      else let step =
          pos_part (max_ℤ (pos 1) (trunc (div (of_int (pos (length lms))) (of_int max_points)))) in
        place frame_w frame_h max_points (strided step 0 lms) []

  -- Within the frame.
  abbrev pub Inside : ℤ → ℤ → Point → Type 0
  Inside frame_w frame_h p = (pos 0 ≤ℤ p.x) × (p.x <ℤ frame_w) × (pos 0 ≤ℤ p.y) × (p.y <ℤ frame_h)

  abbrev pub Drawable : ℤ → ℤ → ℤ → List Point → Type 0
  Drawable frame_w frame_h max_points out =
      All (Inside frame_w frame_h) out × (pos (length out) ≤ℤ max_points)

  inside_lem :
      (frame_w frame_h : ℤ) (p : Point) → inside frame_w frame_h p ≡ true → Inside frame_w frame_h p
  unfolding inside
  inside_lem frame_w frame_h p h = ground (arith, h)

  All-append :
      (P : Point → Type 0) (xs : List Point) (x : Point) → All P xs → P x → All P (xs ++ x ∷ [])
  All-append P [] x a h = (h, tt)
  All-append P (y ∷ xs) x (k, a) h = (k, All-append P xs x a h)

  add_if-Inside :
      (w h : ℤ) (p : Point) (out : List Point)
      → All (Inside w h) out
      → All (Inside w h) (add_if (inside w h p) p out)
  add_if-Inside w h p out a = elim (Bool-cases (inside w h p)) [
    | inl within ↦ rw within (All-append (Inside w h) out p a (inside_lem w h p within))
    | inr beyond ↦ rw beyond a
  ]

  length-add_if :
      (b : Bool) (p : Point) (out : List Point) → length (add_if b p out) ≤ length out + 1
  length-add_if true p out = ground (arith, length-append out (p ∷ []))
  length-add_if false p out = ground arith

  abbrev Unfinished : ℤ → ℤ → ℤ → List Point → Type 0
  Unfinished w h m out = All (Inside w h) out × (pos (length out) <ℤ m)

  -- The pixel of a landmark is finite, if the landmark has numbers.
  abbrev pub FinitePixel : ℤ → ℤ → Option (F × F) → Type 0
  FinitePixel w h none = Unit {0}
  FinitePixel w h (some (x, y)) =
      (is_finite (mul x (of_int w)) ≡ true) × (is_finite (mul y (of_int h)) ≡ true)

  abbrev pub FiniteMark : ℤ → ℤ → Fields → Type 0
  FiniteMark w h lm = FinitePixel w h (both (number (get "x" lm)) (number (get "y" lm)))

  pixel-IsOk : (w h : ℤ) (xy : F × F) → FinitePixel w h (some xy) → IsOk (pixel w h xy)
  unfolding pixel rounded
  pixel-IsOk w h (x, y) (fine_x, fine_y) = rw (fine_x, fine_y) tt

  place_one-Drawable :
      (w h m : ℤ) (o : Option (F × F)) (out : List Point) (on : List Point → Result (List Point))
      → FinitePixel w h o
      → Unfinished w h m out
      → ((out' : List Point) → Unfinished w h m out' → Surely (Drawable w h m) (on out'))
      → Surely (Drawable w h m) (place_one w h m o out on)
  place_one-Drawable w h m none out on fine u k = k out u
  place_one-Drawable w h m (some xy) out on fine (a, l) k =
      Surely->>= (Drawable w h m) (pixel w h xy) _ (pixel-IsOk w h xy fine) (λ p _.
        let out' = add_if (inside w h p) p out in
        elim (Bool-cases (leb_ℤ m (pos (length out')))) [
          | inl enough ↦
              rw enough
                (add_if-Inside w h p out a, ground (arith, l, length-add_if (inside w h p) p out))
          | inr more ↦ rw more (k out' (add_if-Inside w h p out a, ground (arith, more)))
        ])

  place-Drawable :
      (w h m : ℤ) (lms : List Fields) (out : List Point)
      → All (FiniteMark w h) lms
      → Unfinished w h m out
      → Surely (Drawable w h m) (place w h m lms out)
  unfolding place
  place-Drawable w h m [] out fine (a, l) = (a, ground (arith, l))
  place-Drawable w h m (lm ∷ lms) out (fine, all_fine) u =
      place_one-Drawable w h m _ out _ fine u (λ out' u'. place-Drawable w h m lms out' all_fine u')

  All-strided :
      (P : Fields → Type 0) (step wait : ℕ) (xs : List Fields)
      → All P xs
      → All P (strided step wait xs)
  unfolding strided
  All-strided P step wait [] h = tt
  All-strided P step zero (x ∷ xs) (p, h) = (p, All-strided P step (step - 1) xs h)
  All-strided P step (suc wait) (x ∷ xs) (p, h) = All-strided P step wait xs h

  -- Where the pixels of the landmarks are finite and the maximum asked for is not negative, the
  -- landmarks are reduced without an exception to points that all lie within the frame, and there
  -- are no more of them than the maximum.
  pub downsample_landmarks-Drawable :
      (lms : List Fields) (w h m : ℤ)
      → All (FiniteMark w h) lms
      → pos 0 ≤ℤ m
      → Surely (Drawable w h m) (downsample_landmarks lms w h m)
  unfolding downsample_landmarks
  downsample_landmarks-Drawable lms w h m fine nonneg =
      elim (Bool-cases (is_empty lms || leb_ℤ m (pos 0))) [
        | inl nothing ↦ rw nothing (tt, nonneg)
        | inr something ↦ rw something (
            place-Drawable w h m _ [] (All-strided (FiniteMark w h) _ 0 lms fine)
              (tt, ground (arith, something)))
      ]
