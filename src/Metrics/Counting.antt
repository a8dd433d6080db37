-- ===== src/Metrics/Counting.antt =====
-- The counters and the rings after any calls, against the sequence of those calls.
use diplom_code.Base.{
  ◌≡◌, refl, ℤ, pos, String, not, ◌&&◌, List, [], ◌∷◌, ◌++◌, ◌==◌, string_eq, nat_eq, int_eq,
  if◌then◌else◌, arith, ap, sym, ◌∙◌, inl, inr, Bool-cases, ◌+ℤ◌, last_n, last_n-append, +ℤ_assoc,
  +ℤ-zero, zero-+ℤ, is_blank, strip, lstrip, rstrip, is_space,
}
use diplom_code.Base.Dict.{lookup, lookup_or, lookup_or-insert}
use diplom_code.Py.{Runtime, IsLower, zero_f}
use mathlib.Core.List.{append-nil, append_assoc}
use diplom_code.Metrics.{Counters, Rings, incr, observe_module_latency, ring_key, ring_size}

module _ ⦃rt : Runtime⦄ where
  open rt use {F, lt, round_at, lower}

  unfoldable pub run_incr : List (String × ℤ) → Counters → Counters
  run_incr [] c = c
  run_incr ((metric, n) ∷ calls) c = run_incr calls (incr metric n c)

  -- What the calls add to one counter.
  unfoldable pub total : String → List (String × ℤ) → ℤ
  total metric [] = pos 0
  total metric ((m, n) ∷ calls) =
      let rest = total metric calls in if m == metric then n +ℤ rest else rest

  after_incr :
      (metric m : String) (n : ℤ) (c : Counters) (rest : ℤ)
      → lookup_or metric (pos 0) (incr m n c) +ℤ rest
        ≡ lookup_or metric (pos 0) c +ℤ (if m == metric then n +ℤ rest else rest)
  unfolding incr
  after_incr metric m n c rest = elim (Bool-cases (m == metric)) [
    | inl same ↦
        rw (lookup_or-insert, same, (string_eq.same_iff m metric).0 same)
          (+ℤ_assoc (lookup_or metric (pos 0) c) n rest)
    | inr other ↦ rw (lookup_or-insert, other) refl
  ]

  count_from :
      (metric : String) (calls : List (String × ℤ)) (c : Counters)
      → lookup_or metric (pos 0) (run_incr calls c)
        ≡ lookup_or metric (pos 0) c +ℤ total metric calls
  unfolding run_incr total
  count_from metric [] c = sym (+ℤ-zero (lookup_or metric (pos 0) c))
  count_from metric ((m, n) ∷ calls) c =
      count_from metric calls (incr m n c) ∙ after_incr metric m n c (total metric calls)

  -- A counter holds the sum of what the calls of `incr` with its name added, whatever other calls
  -- come between them.
  pub counter-run :
      (metric : String) (calls : List (String × ℤ))
      → lookup_or metric (pos 0) (run_incr calls []) ≡ total metric calls
  unfolding lookup_or lookup
  counter-run metric calls = count_from metric calls [] ∙ zero-+ℤ (total metric calls)

  unfoldable pub run_observe : List (String × F) → Rings → Rings
  run_observe [] r = r
  run_observe ((name, ms) ∷ calls) r = run_observe calls (observe_module_latency name ms r)

  -- The module that a call means: its name in lower case without the blanks around it, and
  -- `unknown`, where the name is blank.
  unfoldable pub module_of : String → String
  module_of name = if is_blank name then "unknown" else lower (strip name)

  ring_key-module_of : IsLower rt → (name : String) → ring_key name ≡ module_of name
  unfolding ring_key module_of is_blank strip lstrip rstrip is_space
  ring_key-module_of law String.[] = rw law.lower-unknown refl
  ring_key-module_of law (String.◌∷◌ c s) =
      ap (λ b. if b then "unknown" else lower (strip (String.◌∷◌ c s)))
        (law.is_nil-lower (strip (String.◌∷◌ c s)))

  -- The samples kept for one module, were there no bound.
  unfoldable pub samples : String → List (String × F) → List F
  samples key [] = []
  samples key ((name, ms) ∷ calls) =
      let rest = samples key calls in
      if not (lt ms zero_f) && module_of name == key then round_at 3 ms ∷ rest else rest

  ring-observe :
      IsLower rt
      → (key name : String) (ms : F) (r : Rings)
      → lookup_or key [] (observe_module_latency name ms r) ≡ (
          if not (lt ms zero_f) && module_of name == key
          then last_n ring_size (lookup_or key [] r ++ round_at 3 ms ∷ [])
          else lookup_or key [] r)
  unfolding observe_module_latency
  ring-observe law key name ms r = rw (ring_key-module_of law name) (
      ground (
        arith,
        string_eq.same_iff (module_of name) key,
        lookup_or-insert (module_of name) key
            (last_n ring_size (lookup_or (module_of name) [] r ++ round_at 3 ms ∷ [])) [] r,
      ))

  ring_from :
      IsLower rt
      → (key : String) (calls : List (String × F)) (r : Rings) (old : List F)
      → lookup_or key [] r ≡ last_n ring_size old
      → lookup_or key [] (run_observe calls r) ≡ last_n ring_size (old ++ samples key calls)
  unfolding run_observe samples
  ring_from law key [] r old h = rw append-nil h
  ring_from law key ((name, ms) ∷ calls) r old h =
      elim (Bool-cases (not (lt ms zero_f) && module_of name == key)) [
        | inl kept ↦ rw kept (
            ring_from law key calls (observe_module_latency name ms r) (old ++ round_at 3 ms ∷ []) (
              ring-observe law key name ms r
              ∙ rw (kept, h) (last_n-append ring_size old (round_at 3 ms ∷ [])))
            ∙ ap (last_n ring_size) (append_assoc old (round_at 3 ms ∷ []) (samples key calls)))
        | inr dropped ↦ rw dropped (
            ring_from law key calls (observe_module_latency name ms r) old
              (ring-observe law key name ms r ∙ rw dropped h))
      ]

  -- The ring of a module holds the last 256 of its latencies, rounded, in order; negative ones are
  -- left out. Its calls are those whose name in lower case, without the blanks around it, is that
  -- of the module; a blank name means the module `unknown`. Where `lower` keeps the text `unknown`
  -- and makes only the empty text empty.
  pub ring-run :
      IsLower rt
      → (key : String) (calls : List (String × F))
      → lookup_or key [] (run_observe calls []) ≡ last_n 256 (samples key calls)
  unfolding lookup_or lookup
  ring-run law key calls = ring_from law key calls [] [] refl
