-- ===== src/Act/Laws.antt =====
-- How actions change counters: the sum of some counters after an action.
use diplom_code.Base.{
  ◌≡◌, refl, ℕ, ◌+◌, ℤ, pos, String, Option, none, some, List, [], ◌∷◌, ◌==◌, string_eq, nat_eq,
  int_eq, if◌then◌else◌, arith, ap, sym, ◌∙◌, ◌+ℤ◌, +ℤ-shuffle, +ℤ-zero, +ℤ-pos-pos,
}
use diplom_code.Base.Dict.{lookup_or, lookup_or-insert}
use diplom_code.Py.{Runtime, Fields, Result, ok, raise}
use diplom_code.Act.{
  World, Shared, Act, next, ◌>>=◌, count, send, sent_by, remember, observe, counted, count_all,
}
use diplom_code.Metrics.{incr}
use diplom_code.Dispatch.{Gateway}
use diplom_code.Store.{Push}

module _ ⦃rt : Runtime⦄ where
  -- The sum of the counters with these names.
  abbrev pub total_of : List String → World → ℤ
  total_of [] w = pos 0
  total_of (m ∷ ms) w = counted m w +ℤ total_of ms w

  abbrev pub occurrences : String → List String → ℕ
  occurrences k [] = 0
  occurrences k (m ∷ ms) = (if k == m then 1 else 0) + occurrences k ms

  -- An action has added `n` to the sum, or has raised an exception and left it as it was.
  abbrev pub Adds : {A : Type 0} → List String → ℕ → World → Result A × World → Type 0
  Adds ms n w (ok a, w') = total_of ms w' ≡ total_of ms w +ℤ pos n
  Adds ms n w (raise e, w') = total_of ms w' ≡ total_of ms w

  counted-count :
      (k m : String) (w : World)
      → counted m (count k w).1 ≡ counted m w +ℤ pos (if k == m then 1 else 0)
  unfolding counted count incr
  counted-count k m (g, s) = ground (
    arith,
    lookup_or-insert k m (lookup_or k (pos 0) g.counters +ℤ pos 1) (pos 0) g.counters,
    string_eq.same_iff k m,
  )

  pub total-count :
      (k : String) (ms : List String) (w : World)
      → total_of ms (count k w).1 ≡ total_of ms w +ℤ pos (occurrences k ms)
  total-count k [] w = refl
  total-count k (m ∷ ms) w =
      rw (counted-count k m w, total-count k ms w)
        (+ℤ-shuffle (counted m w) (total_of ms w) (if k == m then 1 else 0) (occurrences k ms))

  -- From a state with the same sum.
  pub Adds-from :
      {A : Type 0} (ms : List String) (n : ℕ) (w w' : World) (r : Result A × World)
      → total_of ms w' ≡ total_of ms w
      → Adds ms n w' r
      → Adds ms n w r
  Adds-from ms n w w' (ok a, w'') e h = h ∙ ap (λ t. t +ℤ pos n) e
  Adds-from ms n w w' (raise x, w'') e h = h ∙ e

  pub next-Adds :
      {A B : Type 0} (ms : List String) (n : ℕ) (w : World) (r : Result A × World) (f : A → Act B)
      → Adds ms 0 w r
      → ((a : A) (w' : World) → Adds ms n w' (f a w'))
      → Adds ms n w (next r f)
  next-Adds ms n w (ok a, w') f h k =
      Adds-from ms n w w' (f a w') (h ∙ +ℤ-zero (total_of ms w)) (k a w')
  next-Adds ms n w (raise e, w') f h k = h

  pub total-shared :
      (ms : List String) (g : Gateway) (s s' : Shared) → total_of ms (g, s) ≡ total_of ms (g, s')
  unfolding counted
  total-shared [] g s s' = refl
  total-shared (m ∷ ms) g s s' = ap (λ t. counted m (g, s) +ℤ t) (total-shared ms g s s')

  -- Actions that touch no counter.
  pub lift-Adds : {A : Type 0} (ms : List String) (r : Result A) (w : World) → Adds ms 0 w (r, w)
  lift-Adds ms (ok a) w = sym (+ℤ-zero (total_of ms w))
  lift-Adds ms (raise e) w = refl

  pub shared-Adds :
      {A : Type 0} (ms : List String) (r : Result A) (g : Gateway) (s s' : Shared)
      → Adds ms 0 (g, s) (r, (g, s'))
  shared-Adds ms (ok a) g s s' = total-shared ms g s' s ∙ sym (+ℤ-zero (total_of ms (g, s)))
  shared-Adds ms (raise e) g s s' = total-shared ms g s' s

  pub send-Adds : (ms : List String) (msg : Fields) (w : World) → Adds ms 0 w (send msg w)
  unfolding send
  send-Adds ms msg (g, s) = go (s.wire s.tried)
    where
      go : (o : Option String) → Adds ms 0 (g, s) (sent_by o msg (g, s))
      go none = shared-Adds {A = Unit {0}} ms (ok tt) g s _
      go (some e) = shared-Adds {A = Unit {0}} ms (raise e) g s _

  pub remember-Adds : (ms : List String) (p : Push) (w : World) → Adds ms 0 w (remember p w)
  unfolding remember
  remember-Adds ms p (g, s) = shared-Adds ms (ok tt) g s _

  pub observe-Adds :
      (ms : List String) (name : String) (ms_spent : rt.F) (w : World)
      → Adds ms 0 w (observe name ms_spent w)
  unfolding observe
  observe-Adds ms name x (g, s) = shared-Adds ms (ok tt) g s _

  pub ok-count : (k : String) (w : World) → count k w ≡ (ok tt, (count k w).1)
  unfolding count
  ok-count k (g, s) = refl

  -- The last counter.
  pub count-Adds :
      (ms : List String) (k : String) (w : World) → Adds ms (occurrences k ms) w (count k w)
  unfolding count
  count-Adds ms k (g, s) = total-count k ms (g, s)

  Adds-more :
      {B : Type 0} (ms : List String) (m n : ℕ) (w w1 : World) (b : B) (r : Result B × World)
      → total_of ms w1 ≡ total_of ms w +ℤ pos m
      → r.0 ≡ ok b
      → Adds ms n w1 r
      → Adds ms (m + n) w r
  Adds-more ms m n w w1 b (ok a, w') t e h =
      h ∙ ap (λ x. x +ℤ pos n) t ∙ +ℤ-pos-pos (total_of ms w) m n
  Adds-more ms m n w w1 b (raise x, w') t e h = cc

  -- A counter, and then what adds `n` and raises no exception.
  pub count_then-Adds :
      {B : Type 0} (ms : List String) (k : String) (n : ℕ) (w : World) (b : B) (f : Act B)
      → (f (count k w).1).0 ≡ ok b
      → Adds ms n (count k w).1 (f (count k w).1)
      → Adds ms (occurrences k ms + n) w ((count k >>= (λ _. f)) w)
  count_then-Adds ms k n w b f e h = rw (ok-count k w) (
      Adds-more ms (occurrences k ms) n w (count k w).1 b (f (count k w).1) (total-count k ms w) e
        h)

  ok-count_all : (ks : List String) (w : World) → (count_all ks w).0 ≡ ok tt
  unfolding count_all
  ok-count_all [] w = refl
  ok-count_all (k ∷ ks) w = rw (ok-count k w) (ok-count_all ks (count k w).1)

  abbrev pub occurrences_all : List String → List String → ℕ
  occurrences_all [] ms = 0
  occurrences_all (k ∷ ks) ms = occurrences k ms + occurrences_all ks ms

  pub count_all-Adds :
      (ms ks : List String) (w : World) → Adds ms (occurrences_all ks ms) w (count_all ks w)
  unfolding count_all
  count_all-Adds ms [] w = sym (+ℤ-zero (total_of ms w))
  count_all-Adds ms (k ∷ ks) w =
      count_then-Adds ms k (occurrences_all ks ms) w tt (count_all ks)
        (ok-count_all ks (count k w).1) (count_all-Adds ms ks (count k w).1)
