-- ===== src/Examples/Numbers.antt =====
-- Numbers with three digits behind the point, in place of doubles: what the laws of `IsDouble` ask
-- for holds of them.
use native.Mathlib.Nat.{div-le_of_le-mul, zero-div}
use diplom_code.Base.{
  refl, suc, ◌*◌, ◌/◌, ◌^◌, ℤ, pos, negsuc, ◌+ℤ◌, ◌-ℤ◌, ◌*ℤ◌, ltb_ℤ, leb_ℤ, eqb_ℤ, pos_part,
  neg_part, sub_ℕ, true, false, none, arith, not, is_space, ℕ, ◌≡◌, ◌≤◌,
}
use diplom_code.Py.{Runtime, IsDouble, IsLower}

-- Division that rounds towards zero.
abbrev pub quotient : ℤ → ℤ → ℤ
quotient a (pos n) = sub_ℕ (pos_part a / n) (neg_part a / n)
quotient a (negsuc n) = sub_ℕ (neg_part a / suc n) (pos_part a / suc n)

instance abbrev pub thousandths : Runtime
thousandths = record {
  F = ℤ;
  lit = λ m k. pos (m * 1000 / 10 ^ k);
  of_int = λ n. n *ℤ pos 1000;
  lt = ltb_ℤ;
  le = leb_ℤ;
  is_zero = λ x. eqb_ℤ x (pos 0);
  is_nan = λ _. false;
  is_finite = λ _. true;
  add = ◌+ℤ◌;
  sub = ◌-ℤ◌;
  mul = λ x y. quotient (x *ℤ y) (pos 1000);
  div = λ x y. quotient (x *ℤ pos 1000) y;
  floor_div = λ x y. quotient x y *ℤ pos 1000;
  trunc = λ x. quotient x (pos 1000);
  round_int = λ x. quotient x (pos 1000);
  round_at = λ _ x. x;
  neg = λ x. pos 0 -ℤ x;
  sqrt = λ x. pos (pos_part x);
  atan2 = λ y x. y;
  pi = pos 3142;
  parse_float = λ _. none;
  parse_int = λ _. none;
  is_word = λ c. not (is_space c);
  lower = λ s. s;
  show_int = λ _. "7";
  repr = λ _. "?";
}

zero_quotient : (n : ℕ) → 0 / n ≡ 0
zero_quotient n = zero-div n

neg_part-scale : (a : ℕ) → neg_part (pos a *ℤ pos 1000) ≡ 0
neg_part-scale a = ground arith

quotient-ge-zero :
    (x y : ℤ)
    → ltb_ℤ x (pos 0) ≡ false
    → ltb_ℤ (pos 0) y ≡ true
    → ltb_ℤ (quotient (x *ℤ pos 1000) y) (pos 0) ≡ false
quotient-ge-zero (pos a) (pos n) h k = rw (neg_part-scale a, zero_quotient n) (ground arith)
quotient-ge-zero (pos a) (negsuc n) h k = ground (arith, k)
quotient-ge-zero (negsuc a) y h k = ground (arith, h)

pos-times : (a b : ℕ) → pos a *ℤ pos b ≡ pos (a * b)
pos-times a b = ground arith

quotient-le : (a b k : ℕ) → a ≤ b * k → ltb_ℤ (pos k) (quotient (pos a) (pos b)) ≡ false
quotient-le a b k h = ground (arith, div-le_of_le-mul b h, zero_quotient b)

ratio-le-one :
    (m n : ℕ)
    → m ≤ n
    → ltb_ℤ (pos 1000) (quotient ((pos m *ℤ pos 1000) *ℤ pos 1000) (pos n *ℤ pos 1000)) ≡ false
ratio-le-one m n h =
    rw (pos-times m 1000, pos-times (m * 1000) 1000, pos-times n 1000)
      (quotient-le (m * 1000 * 1000) (n * 1000) 1000 (omega arith))

pub thousandths_laws : IsDouble thousandths
thousandths_laws = record {
  lt→le = λ x y h. ground (arith, h);
  zero-le-zero = refl;
  zero-le-one = refl;
  one-le-one = refl;
  of_int_nonneg = λ n. ground arith;
  zero-le-one_sub = λ x h k. ground (arith, h, k);
  one_sub-le-one = λ x h k. ground (arith, h, k);
  zero-lt-zero = refl;
  one-lt-one = refl;
  one-lt-zero = refl;
  round-ge-zero = λ n x h. h;
  round-le-one = λ n x h. h;
  lt_asym = λ x y h. ground (arith, h);
  zero-lt-lit = λ m h. ground (arith, h);
  zero-lt-of_int = λ n h. ground (arith, h);
  div-ge-zero = quotient-ge-zero;
  sqrt-ge-zero = λ x. ground arith;
  zero-lt-add = λ x y h k. ground (arith, h, k);
  le→not_lt = λ x y h. ground (arith, h);
  div-le-one = λ m n h k. ratio-le-one m n h;
}

pub thousandths_lower : IsLower thousandths
thousandths_lower = record { lower-unknown = refl; is_nil-lower = λ s. refl }
