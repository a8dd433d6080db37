-- ===== src/Face/Schema/Matrix.antt =====
-- code/ai-gateway/modules/face/schema.py: Euler angles of a transform matrix.
use diplom_code.Base.{Option, none, some, List, [], ◌∷◌, if◌then◌else◌, ℕ, eqb, suc, length, zero}
use diplom_code.Py.{Runtime, float, Items, nil, cons, zero_f}

module _ ⦃rt : Runtime⦄ where
  open rt use {F, lit, lt, add, mul, div, neg, sqrt, atan2, pi}

  pub record Angles : Type 0 where
    pub yaw_deg : F
    pub pitch_deg : F
    pub roll_deg : F

  -- `_deg`
  deg : F → F
  deg rad = div (mul rad (lit 1800 1)) pi

  angles : F → F → F → Angles
  angles yaw pitch roll = record { yaw_deg = deg yaw; pitch_deg = deg pitch; roll_deg = deg roll }

  euler : F → F → F → F → F → F → F → Angles
  euler r00 r10 r11 r12 r20 r21 r22 =
      let sy = sqrt (add (mul r00 r00) (mul r10 r10)) in
      if lt sy (lit 1 6)
      then angles (atan2 (neg r20) sy) (atan2 (neg r12) r11) zero_f
      else angles (atan2 (neg r20) sy) (atan2 r21 r22) (atan2 r10 r00)

  -- `m16[i]` for an index in range
  entry : List F → ℕ → F
  entry [] i = zero_f
  entry (x ∷ xs) zero = x
  entry (x ∷ xs) (suc i) = entry xs i

  unfoldable pub euler_from_matrix4x4_row_major : List F → Option Angles
  unfolding euler angles deg entry
  euler_from_matrix4x4_row_major m =
      if eqb (length m) 16
      then some (
          euler (entry m 0) (entry m 4) (entry m 5) (entry m 6) (entry m 8) (entry m 9)
            (entry m 10))
      else none

  abbrev pub float_items : List F → Items
  float_items [] = nil
  float_items (x ∷ xs) = cons (float x) (float_items xs)
