-- ===== src/Metrics.antt =====
-- code/ai-gateway/observability.py: counters and the bounded rings of latencies. Each function runs
-- under the lock. Logging writes no state of the program and is left out.
pub mod Counting
pub mod Summary
use diplom_code.Base.{
  ◌≡◌, refl, ℕ, zero, suc, ◌+◌, ◌-◌, ◌≤◌, ◌<◌, ℤ, pos, negsuc, String, Bool, true, false, not, ◌&&◌,
  ◌||◌, Option, none, some, List, [], ◌∷◌, ◌++◌, ◌==◌, string_eq, nat_eq, int_eq, ltb, leb, eqb,
  if◌then◌else◌, arith, ap, sym, ◌∙◌, subst, inl, inr, ◌⊎◌, Bool-cases, Option-cases, length, map,
  All, filter, is_nil, is_blank, is_empty, strip, ◌≢◌, ◌↔◌, ◌+ℤ◌, last_n, sort_by, get_elem?,
  pos_part, min_ℤ, max_ℤ,
}
use diplom_code.Base.Dict.{Dict, keys, lookup, lookup_or, insert, lookup-insert, lookup_or-insert}
use diplom_code.Py.{
  Runtime, IsDouble, null, bool, int, float, str, arr, obj, nil, cons, end, field, Value, Items,
  Fields, get, get_or, has, fields, items, number, truthy, or_else, text_of, is_filled, is_str,
  is_dict, is_list, is_bool, is_null, dict_or_empty, zero_f, one_f, min_f, max_f, set_field, update,
  opt_str, opt_float, opt_int, Result, ok, raise, ◌>>=◌, ◌>>◌, require,
}

module _ ⦃rt : Runtime⦄ where
  open rt use {F, lt, add, mul, div, lit, of_int, round_int, round_at, lower}

  abbrev pub Counters : Type 0
  Counters = Dict String ℤ

  abbrev pub Rings : Type 0
  Rings = Dict String (List F)

  unfoldable pub incr : String → ℤ → Counters → Counters
  incr metric n c = insert metric (lookup_or metric (pos 0) c +ℤ n) c

  abbrev pub ring_size : ℕ
  ring_size = 256

  -- `(module or "unknown").strip().lower() or "unknown"`
  unfoldable pub ring_key : String → String
  ring_key name =
      let key = lower (strip (if is_nil name then "unknown" else name)) in
      if is_nil key then "unknown" else key

  unfoldable pub observe_module_latency : String → F → Rings → Rings
  observe_module_latency name elapsed_ms r =
      if lt elapsed_ms zero_f
      then r
      else insert (ring_key name)
          (last_n ring_size (lookup_or (ring_key name) [] r ++ round_at 3 elapsed_ms ∷ [])) r

  unfoldable pub sorted_f : List F → List F
  sorted_f = sort_by (λ x y. not (lt y x))

  abbrev pub sum_f : F → List F → F
  sum_f acc [] = acc
  sum_f acc (x ∷ xs) = sum_f (add acc x) xs

  -- `vals[i]`
  abbrev pub index {ℓ} : {A : Type ℓ} → List A → ℕ → Result A
  index xs i = elim (get_elem? xs i) [ none ↦ raise "IndexError" | some x ↦ ok x ]

  -- `min(n - 1, max(0, int(round(0.95 * (n - 1)))))` for 0 < n
  unfoldable pub p95_index : ℕ → ℕ
  p95_index n =
      pos_part
        (min_ℤ (pos (n - 1)) (max_ℤ (pos 0) (round_int (mul (lit 95 2) (of_int (pos (n - 1)))))))

  pub record Stats : Type 0 where
    pub count : ℕ
    pub p95_ms : F
    pub max_ms : F
    pub avg_ms : F

  -- `_latency_stats`
  unfoldable pub latency_stats : List F → Result Stats
  latency_stats vals = do
    let n = length vals
    p95 ← index vals (p95_index n)
    top ← index vals (n - 1)
    ok (record {
      count = n;
      p95_ms = p95;
      max_ms = top;
      avg_ms = round_at 3 (div (sum_f zero_f vals) (of_int (pos n)));
    })

  -- `{}` is none.
  unfoldable pub latency_summary : String → Rings → Result (Option Stats)
  latency_summary name r =
      let vals = sorted_f (lookup_or name [] r) in
      if is_empty vals then ok none else do s ← latency_stats vals; ok (some s)

  unfoldable pub ring_stats : List String → Rings → Result (Dict String Stats)
  unfolding latency_summary
  ring_stats [] r = ok []
  ring_stats (m ∷ ms) r =
      let rest = ring_stats ms r in
      do s ← latency_summary m r; more ← rest; ok (elim s [ none ↦ more | some t ↦ (m, t) ∷ more ])
