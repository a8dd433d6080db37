-- ===== src/Base/Dict.antt =====
-- Python's `dict`: association lists in the order of insertion.
use mathlib.Core.Path.{◌≡◌, refl}
use mathlib.Core.Logic.{◌≢◌, inl, inr}
use mathlib.Core.Bool.{Bool, ◌||◌}
use diplom_code.Base.Lists.{All, any}
use diplom_code.Base.Sort.{Distinct}
use mathlib.Core.Option.{Option, none, some}
use mathlib.Core.List.{List, [], ◌∷◌}
use native.Mathlib.Omega.{arith}
use diplom_code.Base.Tests.{KeyEq, ◌==◌, Bool-cases, if◌then◌else◌}

abbrev pub Dict {ℓ κ} : Type ℓ → Type κ → Type (ℓ ⊔ κ)
Dict K V = List (K × V)

abbrev pub keys {ℓ κ} : {K : Type ℓ} {V : Type κ} → Dict K V → List K
keys [] = []
keys ((k, v) ∷ d) = k ∷ keys d

module _ {ℓ κ} {K : Type ℓ} {V : Type κ} ⦃e : KeyEq K⦄ where
  -- `d.get(k)`
  unfoldable pub lookup : K → Dict K V → Option V
  lookup k [] = none
  lookup k ((j, v) ∷ d) = if j == k then some v else lookup k d

  -- `d.get(k, v)`
  unfoldable pub lookup_or : K → V → Dict K V → V
  unfolding lookup
  lookup_or k v d = elim (lookup k d) [ none ↦ v | some w ↦ w ]

  -- `d[k] = v`
  unfoldable pub insert : K → V → Dict K V → Dict K V
  insert k v [] = (k, v) ∷ []
  insert k v ((j, w) ∷ d) = if j == k then (j, v) ∷ d else (j, w) ∷ insert k v d

  -- `d.pop(k, None)`
  unfoldable pub erase : K → Dict K V → Dict K V
  erase k [] = []
  erase k ((j, w) ∷ d) = let rest = erase k d in if j == k then rest else (j, w) ∷ rest

  pub lookup-insert :
      (k j : K) (v : V) (d : Dict K V)
      → lookup j (insert k v d) ≡ (if k == j then some v else lookup j d)
  unfolding lookup insert
  lookup-insert k j v [] = refl
  lookup-insert k j v ((i, w) ∷ d) =
      ground (arith, e.same_iff k j, e.same_iff i k, e.same_iff i j, lookup-insert k j v d)

  pub lookup-erase :
      (k j : K) (d : Dict K V) → lookup j (erase k d) ≡ (if k == j then none else lookup j d)
  unfolding lookup erase
  lookup-erase k j [] = ground arith
  lookup-erase k j ((i, w) ∷ d) =
      ground (arith, e.same_iff k j, e.same_iff i k, e.same_iff i j, lookup-erase k j d)

  pub lookup_or-insert :
      (k j : K) (v w : V) (d : Dict K V)
      → lookup_or j w (insert k v d) ≡ (if k == j then v else lookup_or j w d)
  unfolding lookup_or
  lookup_or-insert k j v w d = ground (arith, lookup-insert k j v d)

  pub any-keys-insert :
      (p : K → Bool) (k : K) (v : V) (d : Dict K V)
      → any p (keys (insert k v d)) ≡ (p k || any p (keys d))
  unfolding insert
  any-keys-insert p k v [] = refl
  any-keys-insert p k v ((i, w) ∷ d) = ground (arith, e.same_iff i k, any-keys-insert p k v d)

  pub All-keys-insert {μ} :
      (P : K → Type μ) (k : K) (v : V) (d : Dict K V)
      → P k
      → All P (keys d)
      → All P (keys (insert k v d))
  unfolding insert
  All-keys-insert P k v [] h a = (h, tt)
  All-keys-insert P k v ((i, w) ∷ d) h a = elim (Bool-cases (i == k)) [
    | inl same ↦ rw same a
    | inr other ↦ rw other (a.0, All-keys-insert P k v d h a.1)
  ]

  pub insert-Distinct :
      (k : K) (v : V) (d : Dict K V) → Distinct (keys d) → Distinct (keys (insert k v d))
  unfolding insert
  insert-Distinct k v [] h = (tt, tt)
  insert-Distinct k v ((i, w) ∷ d) h = elim (Bool-cases (i == k)) [
    | inl same ↦ rw same h
    | inr other ↦ rw other (
      All-keys-insert (λ j. i ≢ j) k v d (λ p. cc (other, (e.same_iff i k).1 p)) h.0,
      insert-Distinct k v d h.1,
    )
  ]
