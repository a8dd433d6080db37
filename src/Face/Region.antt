-- ===== src/Face/Region.antt =====
-- code/ai-gateway/modules/face/region_util.py: face boxes clamped to the frame and smoothed.
use diplom_code.Base.{
  ◌≡◌, ℤ, pos, Bool, false, ◌||◌, Option, none, some, subst, ltb_ℤ, leb_ℤ, min_ℤ, max_ℤ, ◌+ℤ◌, ◌-ℤ◌,
  ◌*ℤ◌, ◌≤ℤ◌, if◌then◌else◌, arith,
}
use diplom_code.Py.{Runtime, zero_f, one_f, min_f, max_f}

pub record Box : Type 0 where
  pub x : ℤ
  pub y : ℤ
  pub w : ℤ
  pub h : ℤ

module _ ⦃rt : Runtime⦄ where
  open rt use {F, lit, lt, le, mul, add, sub, of_int, round_int}

  -- `w0 * h0 > max_af * frame_w * frame_h`
  unfoldable pub too_large : F → ℤ → ℤ → ℤ → ℤ → Bool
  too_large max_area_frac w h frame_w frame_h =
      let max_af = max_f (lit 5 2) (min_f (lit 95 2) max_area_frac) in
      lt (mul (mul max_af (of_int frame_w)) (of_int frame_h)) (of_int (w *ℤ h))

  -- The box cut to the frame, with the tests on its sides and its area.
  unfoldable pub fit_box : Box → F → ℤ → ℤ → ℤ → Option Box
  fit_box b max_area_frac min_side_px frame_w frame_h =
      if ltb_ℤ b.w min_side_px || ltb_ℤ b.h min_side_px
      then none
      else if too_large max_area_frac b.w b.h frame_w frame_h
      then none
      else some b

  unfoldable pub cut : ℤ → ℤ → ℤ
  cut x frame = min_ℤ (max_ℤ (pos 0) x) (frame -ℤ pos 1)

  unfoldable pub clamp_face_region : Box → ℤ → ℤ → F → ℤ → Option Box
  clamp_face_region b frame_w frame_h max_area_frac min_side_px =
      if leb_ℤ frame_w (pos 0) || leb_ℤ frame_h (pos 0) || leb_ℤ b.w (pos 0) || leb_ℤ b.h (pos 0)
      then none
      else let x0 = cut b.x frame_w in
        let y0 = cut b.y frame_h in
        fit_box
          (record { x = x0; y = y0; w = min_ℤ b.w (frame_w -ℤ x0); h = min_ℤ b.h (frame_h -ℤ y0) })
          max_area_frac min_side_px frame_w frame_h

  smooth : F → ℤ → ℤ → ℤ
  smooth a p c = round_int (add (mul a (of_int c)) (mul (sub one_f a) (of_int p)))

  unfoldable pub ema_bbox : Option Box → Box → F → Box
  unfolding smooth
  ema_bbox none cur alpha = cur
  ema_bbox (some prev) cur alpha =
      if le alpha zero_f
      then cur
      else let a = min_f (max_f alpha zero_f) one_f in
        record {
          x = smooth a prev.x cur.x;
          y = smooth a prev.y cur.y;
          w = smooth a prev.w cur.w;
          h = smooth a prev.h cur.h;
        }

  -- What holds of a box that `clamp_face_region` returns.
  pub record InFrame (b : Box) (frame_w frame_h min_side_px : ℤ) : Type 0 where
    pub left : pos 0 ≤ℤ b.x
    pub top : pos 0 ≤ℤ b.y
    pub right : b.x +ℤ b.w ≤ℤ frame_w
    pub bottom : b.y +ℤ b.h ≤ℤ frame_h
    pub wide : min_side_px ≤ℤ b.w
    pub high : min_side_px ≤ℤ b.h

  cut_nonneg : (x frame : ℤ) → leb_ℤ frame (pos 0) ≡ false → pos 0 ≤ℤ cut x frame
  unfolding cut
  cut_nonneg x frame h = ground arith

  -- On one axis the cut box ends within the frame.
  side_fits : (x w frame : ℤ) → x +ℤ min_ℤ w (frame -ℤ x) ≤ℤ frame
  side_fits x w frame = ground arith

  fit_box_lem :
      (b : Box) (max_area_frac : F) (min_side_px frame_w frame_h : ℤ) (c : Box)
      → fit_box b max_area_frac min_side_px frame_w frame_h ≡ some c
      → (b ≡ c) × (min_side_px ≤ℤ b.w) × (min_side_px ≤ℤ b.h)
  unfolding fit_box
  fit_box_lem b max_area_frac min_side_px frame_w frame_h c h = ground arith

  clamp-fit :
      (b : Box) (frame_w frame_h : ℤ) (max_area_frac : F) (min_side_px : ℤ) (c : Box)
      → clamp_face_region b frame_w frame_h max_area_frac min_side_px ≡ some c
      → (leb_ℤ frame_w (pos 0) ≡ false)
        × (leb_ℤ frame_h (pos 0) ≡ false)
        × (fit_box
              (record {
                x = cut b.x frame_w;
                y = cut b.y frame_h;
                w = min_ℤ b.w (frame_w -ℤ cut b.x frame_w);
                h = min_ℤ b.h (frame_h -ℤ cut b.y frame_h);
              })
              max_area_frac
              min_side_px
              frame_w
              frame_h
            ≡ some c)
  unfolding clamp_face_region
  clamp-fit b frame_w frame_h max_area_frac min_side_px c h = ground arith

  -- A box that is returned lies in the frame with its whole extent, and its sides have at least
  -- the length asked for, whatever box, frame and limits are given.
  pub clamp-InFrame :
      (b : Box) (frame_w frame_h min_side_px : ℤ) (max_area_frac : F) (c : Box)
      → clamp_face_region b frame_w frame_h max_area_frac min_side_px ≡ some c
      → InFrame c frame_w frame_h min_side_px
  clamp-InFrame b frame_w frame_h min_side_px max_area_frac c h =
      let x0 = cut b.x frame_w in
      let y0 = cut b.y frame_h in
      let w0 = min_ℤ b.w (frame_w -ℤ x0) in
      let h0 = min_ℤ b.h (frame_h -ℤ y0) in
      let cut_box : Box = record { x = x0; y = y0; w = w0; h = h0 } in
      let (frame_wide, frame_high, fits) =
        clamp-fit b frame_w frame_h max_area_frac min_side_px c h in
      let (same, wide, high) =
        fit_box_lem cut_box max_area_frac min_side_px frame_w frame_h c fits in
      subst (λ d. InFrame d frame_w frame_h min_side_px) same
        (record {
          left = cut_nonneg b.x frame_w frame_wide;
          top = cut_nonneg b.y frame_h frame_high;
          right = side_fits x0 b.w frame_w;
          bottom = side_fits y0 b.h frame_h;
          wide = wide;
          high = high;
        })
