-- ===== src/Base/Text.antt =====
-- Python's `str` methods that the program uses, over native texts: characters are code points.
use Prim.Native.Nat.{Ordering, ℕ, zero, suc, ◌≤◌}
use Prim.Native.Char.{code}
use Prim.Native.String.append
use Prim.Native.String.{String, compare, ◌++◌ as ◌<>◌}
use mathlib.Core.Path.{◌≡◌, refl, ap, ◌∙◌}
use mathlib.Core.Bool.{Bool, true, false, ◌&&◌, ◌||◌}
use native.Mathlib.Omega.{arith}
use diplom_code.Base.Tests.{leb, eqb, if◌then◌else◌}

-- `str.isspace` of one code point.
unfoldable pub is_space : ℕ → Bool
is_space c =
    (leb 9 c && leb c 13)
    || (leb 28 c && leb c 32)
    || eqb c 0x85
    || eqb c 0xa0
    || eqb c 0x1680
    || (leb 0x2000 c && leb c 0x200a)
    || eqb c 0x2028
    || eqb c 0x2029
    || eqb c 0x202f
    || eqb c 0x205f
    || eqb c 0x3000

abbrev pub is_nil : String → Bool
is_nil String.[] = true
is_nil (String.◌∷◌ c s) = false

unfoldable pub lstrip : String → String
unfolding is_space
lstrip String.[] = String.[]
lstrip (String.◌∷◌ c s) = let rest = lstrip s in if is_space (code c) then rest else String.◌∷◌ c s

unfoldable pub rstrip : String → String
unfolding is_space
rstrip String.[] = String.[]
rstrip (String.◌∷◌ c s) =
    let rest = rstrip s in if is_space (code c) && is_nil rest then String.[] else String.◌∷◌ c rest

-- `s.strip()`
unfoldable pub strip : String → String
unfolding lstrip rstrip
strip s = rstrip (lstrip s)

-- `not s.strip()`
unfoldable pub is_blank : String → Bool
unfolding strip
is_blank s = is_nil (strip s)

-- `s <= t`: texts are ordered by their code points.
unfoldable pub text_leb : String → String → Bool
text_leb s t = elim (compare s t) [ Ordering.gt ↦ false | _ ↦ true ]

-- `s[:n]` for 0 ≤ n
abbrev pub take_text : ℕ → String → String
take_text zero s = String.[]
take_text (suc n) String.[] = String.[]
take_text (suc n) (String.◌∷◌ c s) = String.◌∷◌ c (take_text n s)

-- `len(s)`
abbrev pub length_text : String → ℕ
length_text String.[] = 0
length_text (String.◌∷◌ c s) = suc (length_text s)

pub length-take_text : (n : ℕ) (s : String) → length_text (take_text n s) ≤ n
length-take_text zero s = omega arith
length-take_text (suc n) String.[] = omega arith
length-take_text (suc n) (String.◌∷◌ c s) = omega (arith, length-take_text n s)

rstrip_idem : (s : String) → rstrip (rstrip s) ≡ rstrip s
unfolding rstrip
rstrip_idem String.[] = refl
rstrip_idem (String.◌∷◌ c s) = ground (arith, rstrip_idem s)

lstrip-rstrip-lstrip : (s : String) → lstrip (rstrip (lstrip s)) ≡ rstrip (lstrip s)
unfolding lstrip rstrip
lstrip-rstrip-lstrip String.[] = refl
lstrip-rstrip-lstrip (String.◌∷◌ c s) = ground (arith, lstrip-rstrip-lstrip s)

-- What was stripped has nothing left to strip.
pub strip_idem : (s : String) → strip (strip s) ≡ strip s
unfolding strip
strip_idem s = rw lstrip-rstrip-lstrip (rstrip_idem (lstrip s))

-- `needle in s`
unfoldable pub starts : String → String → Bool
starts String.[] s = true
starts (String.◌∷◌ c needle) String.[] = false
starts (String.◌∷◌ c needle) (String.◌∷◌ d s) = eqb (code c) (code d) && starts needle s

unfoldable pub occurs : String → String → Bool
unfolding starts
occurs needle String.[] = is_nil needle
occurs needle (String.◌∷◌ c s) = starts needle (String.◌∷◌ c s) || occurs needle s

all_space : String → Bool
all_space String.[] = true
all_space (String.◌∷◌ c s) = is_space (code c) && all_space s

is_nil-rstrip : (s : String) → is_nil (rstrip s) ≡ all_space s
unfolding rstrip all_space
is_nil-rstrip String.[] = refl
is_nil-rstrip (String.◌∷◌ c s) = ground (arith, is_nil-rstrip s)

is_blank-all_space : (s : String) → is_blank s ≡ all_space s
unfolding is_blank lstrip rstrip all_space
is_blank-all_space String.[] = refl
is_blank-all_space (String.◌∷◌ c s) = ground (arith, is_blank-all_space s, is_nil-rstrip s)

all_space-append : (s t : String) → all_space (s <> t) ≡ (all_space s && all_space t)
unfolding all_space
all_space-append String.[] t = rw append.nil refl
all_space-append (String.◌∷◌ c s) t = rw append.cons (
    ap (λ b. is_space (code c) && b) (all_space-append s t)
    ∙ and_assoc (is_space (code c)) (all_space s) (all_space t))
  where
    and_assoc : (a b c : Bool) → (a && (b && c)) ≡ ((a && b) && c)
    and_assoc true b c = refl
    and_assoc false b c = refl

-- A text followed by another is blank if both are.
pub is_blank-append : (s t : String) → is_blank (s <> t) ≡ (is_blank s && is_blank t)
is_blank-append s t =
    rw (is_blank-all_space (s <> t), is_blank-all_space s, is_blank-all_space t)
      (all_space-append s t)

pub is_blank-strip : (s : String) → is_blank (strip s) ≡ is_blank s
unfolding is_blank
is_blank-strip s = ap is_nil (strip_idem s)

strip_runs : strip " a b\n" ≡ "a b"
unfolding strip
strip_runs = refl
