-- ===== src/Py/Double.antt =====
-- What the program relies on of double precision arithmetic, facts of IEEE 754, and of lower case.
use diplom_code.Base.{◌≡◌, ℕ, true, false, pos, ◌≤◌, ◌<◌, String, is_nil}
use diplom_code.Py.Data.{Runtime}

pub record IsDouble (rt : Runtime) : Type 0 where
  pub lt→le : (x y : rt.F) → rt.lt x y ≡ true → rt.le x y ≡ true
  pub zero-le-zero : rt.le (rt.lit 0 1) (rt.lit 0 1) ≡ true
  pub zero-le-one : rt.le (rt.lit 0 1) (rt.lit 10 1) ≡ true
  pub one-le-one : rt.le (rt.lit 10 1) (rt.lit 10 1) ≡ true
  -- an integer that is not negative does not become a negative number
  pub of_int_nonneg : (n : ℕ) → rt.lt (rt.of_int (pos n)) (rt.lit 0 1) ≡ false
  -- 1.0 - x stays within 0 and 1
  pub zero-le-one_sub :
      (x : rt.F)
      → rt.le (rt.lit 0 1) x ≡ true
      → rt.le x (rt.lit 10 1) ≡ true
      → rt.le (rt.lit 0 1) (rt.sub (rt.lit 10 1) x) ≡ true
  pub one_sub-le-one :
      (x : rt.F)
      → rt.le (rt.lit 0 1) x ≡ true
      → rt.le x (rt.lit 10 1) ≡ true
      → rt.le (rt.sub (rt.lit 10 1) x) (rt.lit 10 1) ≡ true
  -- the order of 0.0 and 1.0, and that rounding does not cross them
  pub zero-lt-zero : rt.lt (rt.lit 0 1) (rt.lit 0 1) ≡ false
  pub one-lt-one : rt.lt (rt.lit 10 1) (rt.lit 10 1) ≡ false
  pub one-lt-zero : rt.lt (rt.lit 10 1) (rt.lit 0 1) ≡ false
  pub round-ge-zero :
      (n : ℕ) (x : rt.F)
      → rt.lt x (rt.lit 0 1) ≡ false
      → rt.lt (rt.round_at n x) (rt.lit 0 1) ≡ false
  pub round-le-one :
      (n : ℕ) (x : rt.F)
      → rt.lt (rt.lit 10 1) x ≡ false
      → rt.lt (rt.lit 10 1) (rt.round_at n x) ≡ false
  pub lt_asym : (x y : rt.F) → rt.lt x y ≡ true → rt.lt y x ≡ false
  -- positive numbers, and signs of quotients, roots and sums
  pub zero-lt-lit : (m : ℕ) → 0 < m → rt.lt (rt.lit 0 1) (rt.lit m 1) ≡ true
  pub zero-lt-of_int : (n : ℕ) → 0 < n → rt.lt (rt.lit 0 1) (rt.of_int (pos n)) ≡ true
  pub div-ge-zero :
      (x y : rt.F)
      → rt.lt x (rt.lit 0 1) ≡ false
      → rt.lt (rt.lit 0 1) y ≡ true
      → rt.lt (rt.div x y) (rt.lit 0 1) ≡ false
  pub sqrt-ge-zero : (x : rt.F) → rt.lt (rt.sqrt x) (rt.lit 0 1) ≡ false
  pub zero-lt-add :
      (x y : rt.F)
      → rt.le (rt.lit 0 1) x ≡ true
      → rt.lt (rt.lit 0 1) y ≡ true
      → rt.lt (rt.lit 0 1) (rt.add x y) ≡ true
  pub le→not_lt : (x y : rt.F) → rt.le x y ≡ true → rt.lt y x ≡ false
  -- a proper fraction is at most one
  pub div-le-one :
      (m n : ℕ)
      → m ≤ n
      → 0 < n
      → rt.lt (rt.lit 10 1) (rt.div (rt.of_int (pos m)) (rt.of_int (pos n))) ≡ false

-- What the program relies on of `str.lower`.
pub record IsLower (rt : Runtime) : Type 0 where
  pub lower-unknown : rt.lower "unknown" ≡ "unknown"
  -- only the empty text becomes empty
  pub is_nil-lower : (s : String) → is_nil (rt.lower s) ≡ is_nil s

-- Neither below 0.0 nor above 1.0 (a NaN is neither).
abbrev pub NotOutside : ⦃rt : Runtime⦄ → rt.F → Type 0
NotOutside ⦃rt⦄ x = (rt.lt x (rt.lit 0 1) ≡ false) × (rt.lt (rt.lit 10 1) x ≡ false)
