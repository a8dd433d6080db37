-- ===== src/Act/Keeps.antt =====
-- Predicates of the shared state that the actions of the plugins keep.
use diplom_code.Base.{◌≡◌, refl, String, ◌∷◌, [], List}
use diplom_code.Store.{Push}
use diplom_code.Speech.{Circuit}
use diplom_code.Py.{Runtime, Fields, Result, ok, raise}
use diplom_code.Act.{World, Act, next, count, count_all, send, remember, observe}

module _ ⦃rt : Runtime⦄ where
  -- `P` survives every action that plugins share, where only messages with `M` are sent.
  pub record Kept (P : World → Type 0) (M : Fields → Type 0) : Type 0 where
    pub counting : (k : String) (w : World) → P w → P (count k w).1
    pub sending : (msg : Fields) (w : World) → M msg → P w → P (send msg w).1
    pub remembering : (p : Push) (w : World) → P w → P (remember p w).1
    pub observing : (name : String) (ms : rt.F) (w : World) → P w → P (observe name ms w).1
    pub calling : (c : Circuit) (w : World) → P w → P (w.0, record (w.1) { circuit = c })

  -- The state after an action, whether or not it raised an exception.
  pub next-Kept :
      {A B : Type 0} (P : World → Type 0) (r : Result A × World) (f : A → Act B)
      → P r.1
      → ((a : A) (w : World) → P w → P (f a w).1)
      → P (next r f).1
  next-Kept P (ok a, w) f h k = k a w h
  next-Kept P (raise e, w) f h k = h

  pub next-Kept_of :
      {A B : Type 0} (P : World → Type 0) (r : Result A × World) (f : A → Act B)
      → P r.1
      → ((a : A) (w : World) → r.0 ≡ ok a → P w → P (f a w).1)
      → P (next r f).1
  next-Kept_of P (ok a, w) f h k = k a w refl h
  next-Kept_of P (raise e, w) f h k = h

  pub count_all-Kept :
      (P : World → Type 0) (M : Fields → Type 0)
      → Kept P M
      → (ks : List String) (w : World) → P w
      → P (count_all ks w).1
  unfolding count_all
  count_all-Kept P M kept [] w h = h
  count_all-Kept P M kept (k ∷ ks) w h =
      next-Kept P (count k w) _ (kept.counting k w h) (λ _ w1 h1. count_all-Kept P M kept ks w1 h1)
