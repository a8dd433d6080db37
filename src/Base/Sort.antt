-- ===== src/Base/Sort.antt =====
-- Python's `sorted`, a stable sort: `before x y` says that `x` may stay in front of `y`.
use mathlib.Core.Path.{◌≡◌, refl, sym, ap, ◌∙◌}
use mathlib.Core.Bool.{Bool, true, false, ◌||◌}
use mathlib.Core.List.{List, [], ◌∷◌}
use mathlib.Core.Logic.{◌≢◌, inl, inr}
use Prim.Native.Nat.{ℕ, suc, ◌+◌}
use native.Mathlib.Omega.{arith}
use diplom_code.Base.Tests.{if◌then◌else◌, Bool-cases}
use diplom_code.Base.Lists.{All, any, length, sum_by}

module _ {ℓ} {A : Type ℓ} where
  unfoldable pub insert_by : (A → A → Bool) → A → List A → List A
  insert_by before x [] = x ∷ []
  insert_by before x (y ∷ ys) = if before x y then x ∷ y ∷ ys else y ∷ insert_by before x ys

  unfoldable pub sort_by : (A → A → Bool) → List A → List A
  unfolding insert_by
  sort_by before [] = []
  sort_by before (x ∷ xs) = insert_by before x (sort_by before xs)

module _ {ℓ} {A : Type ℓ} (before : A → A → Bool) where
  any-insert_by :
      (p : A → Bool) (x : A) (xs : List A) → any p (insert_by before x xs) ≡ (p x || any p xs)
  unfolding insert_by
  any-insert_by p x [] = refl
  any-insert_by p x (y ∷ ys) = ground (arith, any-insert_by p x ys)

  pub any-sort_by : (p : A → Bool) (xs : List A) → any p (sort_by before xs) ≡ any p xs
  unfolding sort_by
  any-sort_by p [] = refl
  any-sort_by p (x ∷ xs) =
      any-insert_by p x (sort_by before xs) ∙ ap (λ b. p x || b) (any-sort_by p xs)

  length-insert_by : (x : A) (xs : List A) → length (insert_by before x xs) ≡ suc (length xs)
  unfolding insert_by
  length-insert_by x [] = refl
  length-insert_by x (y ∷ ys) = ground (arith, length-insert_by x ys)

  pub length-sort_by : (xs : List A) → length (sort_by before xs) ≡ length xs
  unfolding sort_by
  length-sort_by [] = refl
  length-sort_by (x ∷ xs) = length-insert_by x (sort_by before xs) ∙ ap suc (length-sort_by xs)

  sum_by-insert_by :
      (f : A → ℕ) (x : A) (xs : List A) → sum_by f (insert_by before x xs) ≡ f x + sum_by f xs
  unfolding insert_by
  sum_by-insert_by f x [] = refl
  sum_by-insert_by f x (y ∷ ys) = ground (arith, sum_by-insert_by f x ys)

  pub sum_by-sort_by : (f : A → ℕ) (xs : List A) → sum_by f (sort_by before xs) ≡ sum_by f xs
  unfolding sort_by
  sum_by-sort_by f [] = refl
  sum_by-sort_by f (x ∷ xs) =
      omega (arith, sum_by-insert_by f x (sort_by before xs), sum_by-sort_by f xs)

  module _ {κ} (P : A → Type κ) where
    All-insert_by : (x : A) (xs : List A) → P x → All P xs → All P (insert_by before x xs)
    unfolding insert_by
    All-insert_by x [] h k = (h, tt)
    All-insert_by x (y ∷ ys) h k = elim (Bool-cases (before x y)) [
      | inl e ↦ rw e (h, k)
      | inr e ↦ rw e (k.0, All-insert_by x ys h k.1)
    ]

    pub All-sort_by : (xs : List A) → All P xs → All P (sort_by before xs)
    unfolding sort_by
    All-sort_by [] h = tt
    All-sort_by (x ∷ xs) h = All-insert_by x (sort_by before xs) h.0 (All-sort_by xs h.1)

-- Every two neighbours are in order.
module _ {ℓ κ} {A : Type ℓ} (R : A → A → Type κ) where
  abbrev pub Ascending : List A → Type (ℓ ⊔ κ)
  Ascending [] = Unit
  Ascending (x ∷ xs) = All (R x) xs × Ascending xs

-- No item stands twice.
abbrev pub Distinct {ℓ} : {A : Type ℓ} → List A → Type ℓ
Distinct [] = Unit
Distinct (x ∷ xs) = All (λ y. x ≢ y) xs × Distinct xs

pub All-map {ℓ κ μ} :
    {A : Type ℓ} {P : A → Type κ} {Q : A → Type μ} (xs : List A)
    → ((x : A) → P x → Q x)
    → All P xs
    → All Q xs
All-map [] f h = tt
All-map (x ∷ xs) f h = (f x h.0, All-map xs f h.1)

module _ {ℓ κ} {A : Type ℓ} (before : A → A → Bool) (R : A → A → Type κ)
    (keeps : (x y : A) → before x y ≡ true → R x y) (swaps : (x y : A) → before x y ≡ false → R y x)
    (trans : (x y z : A) → R x y → R y z → R x z) where
  insert_by-Ascending : (x : A) (xs : List A) → Ascending R xs → Ascending R (insert_by before x xs)
  unfolding insert_by
  insert_by-Ascending x [] h = (tt, tt)
  insert_by-Ascending x (y ∷ ys) h = elim (Bool-cases (before x y)) [
    | inl e ↦ rw e ((keeps x y e, All-map ys (λ z r. trans x y z (keeps x y e) r) h.0), h)
    | inr e ↦ rw e (All-insert_by before (R y) x ys (swaps x y e) h.0, insert_by-Ascending x ys h.1)
  ]

  -- The sorted list is in order.
  pub sort_by-Ascending : (xs : List A) → Ascending R (sort_by before xs)
  unfolding sort_by
  sort_by-Ascending [] = tt
  sort_by-Ascending (x ∷ xs) = insert_by-Ascending x (sort_by before xs) (sort_by-Ascending xs)

module _ {ℓ} {A : Type ℓ} (before : A → A → Bool) where
  insert_by-Distinct :
      (x : A) (xs : List A) → All (λ y. x ≢ y) xs → Distinct xs → Distinct (insert_by before x xs)
  unfolding insert_by
  insert_by-Distinct x [] h k = (tt, tt)
  insert_by-Distinct x (y ∷ ys) h k = elim (Bool-cases (before x y)) [
    | inl e ↦ rw e (h, k)
    | inr e ↦ rw e (
      All-insert_by before (λ z. y ≢ z) x ys (λ p. h.0 (sym p)) k.0,
      insert_by-Distinct x ys h.1 k.1,
    )
  ]

  pub sort_by-Distinct : (xs : List A) → Distinct xs → Distinct (sort_by before xs)
  unfolding sort_by
  sort_by-Distinct [] h = tt
  sort_by-Distinct (x ∷ xs) h =
      insert_by-Distinct x (sort_by before xs) (All-sort_by before (λ y. x ≢ y) xs h.0)
        (sort_by-Distinct xs h.1)
