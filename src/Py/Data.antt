-- ===== src/Py/Data.antt =====
-- Python's values, as `json.loads` returns them, over an unknown type of floats.
use diplom_code.Base.{ℕ, String, ℤ, Bool, Option}

mutual
  pub data ValueOf (F : Type 0) : Type 0 where
    null : ValueOf F
    bool : Bool → ValueOf F
    int : ℤ → ValueOf F
    float : F → ValueOf F
    str : String → ValueOf F
    arr : ItemsOf F → ValueOf F
    obj : FieldsOf F → ValueOf F

  pub data ItemsOf (F : Type 0) : Type 0 where
    nil : ItemsOf F
    cons : ValueOf F → ItemsOf F → ItemsOf F

  pub data FieldsOf (F : Type 0) : Type 0 where
    end : FieldsOf F
    field : String → ValueOf F → FieldsOf F → FieldsOf F

-- What the program uses of Python and does not define: double precision arithmetic, the Unicode
-- table of lower case letters, and `str` of a value that is not a text.
pub record Runtime : Type 1 where
  pub F : Type 0
  -- the literal m / 10 ^ k: `lit 35 2` is 0.35
  pub lit : ℕ → ℕ → F
  -- `float(n)`, for integers in the range of a double
  pub of_int : ℤ → F
  pub lt : F → F → Bool
  pub le : F → F → Bool
  -- `x == 0.0`
  pub is_zero : F → Bool
  pub is_nan : F → Bool
  -- neither a NaN nor an infinity
  pub is_finite : F → Bool
  pub add : F → F → F
  pub sub : F → F → F
  pub mul : F → F → F
  -- for divisors other than zero
  pub div : F → F → F
  -- `x // y`, for divisors other than zero
  pub floor_div : F → F → F
  -- `int(x)` and `round(x)` for finite numbers
  pub trunc : F → ℤ
  pub round_int : F → ℤ
  -- `round(x, n)`
  pub round_at : ℕ → F → F
  pub neg : F → F
  pub sqrt : F → F
  pub atan2 : F → F → F
  pub pi : F
  -- `float(s)` of a text; none is a ValueError
  pub parse_float : String → Option F
  -- `int(s)` of a text
  pub parse_int : String → Option ℤ
  -- whether a code point is matched by `\w`
  pub is_word : ℕ → Bool
  -- `s.lower()`
  pub lower : String → String
  -- `str(n)` of an integer, and `str(v)` of any value but a text
  pub show_int : ℤ → String
  pub repr : ValueOf F → String
