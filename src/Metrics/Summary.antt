-- ===== src/Metrics/Summary.antt =====
-- The summary of a ring is total, and its figures are taken from the ring.
use diplom_code.Base.{
  ◌≡◌, refl, ℕ, zero, suc, ◌-◌, ◌<◌, pos, String, false, some, List, [], ◌∷◌, string_eq, nat_eq,
  int_eq, arith, ap, ◌∙◌, length, All, is_empty, ◌≢◌, length-sort_by, All-sort_by,
}
use diplom_code.Base.Dict.{lookup_or}
use diplom_code.Py.{Runtime, zero_f, ok}
use diplom_code.Metrics.{
  Rings, Stats, index, p95_index, latency_stats, latency_summary, sorted_f, sum_f,
}

module _ ⦃rt : Runtime⦄ where
  open rt use {F, round_at, div, of_int}

  p95_index-lt : (n : ℕ) → 0 < n → p95_index n < n
  unfolding p95_index
  p95_index-lt n h = ground arith

  index_lem :
      (P : F → Type 0) (xs : List F) (i : ℕ)
      → All P xs
      → i < length xs
      → (x : F) × (index xs i ≡ ok x) × P x
  index_lem P [] i a h = absurd (omega arith)
  index_lem P (x ∷ xs) zero a h = (x, refl, a.0)
  index_lem P (x ∷ xs) (suc i) a h = index_lem P xs i a.1 (omega arith)

  stats_total :
      (P : F → Type 0) (vals : List F)
      → All P vals
      → vals ≢ []
      → (s : Stats) × (latency_stats vals ≡ ok s)
        × (s.count ≡ length vals)
        × P s.p95_ms
        × P s.max_ms
  unfolding latency_stats
  stats_total P [] a h = absurd (h refl)
  stats_total P (x ∷ xs) a h =
      let n : ℕ = length (x ∷ xs) in
      let (p, ep, hp) = index_lem P (x ∷ xs) (p95_index n) a (p95_index-lt n (omega arith)) in
      let (m, em, hm) = index_lem P (x ∷ xs) (n - 1) a (omega arith) in
      (
        record {
          count = n;
          p95_ms = p;
          max_ms = m;
          avg_ms = round_at 3 (div (sum_f zero_f (x ∷ xs)) (of_int (pos n)));
        },
        rw (ep, em),
        refl,
        hp,
        hm,
      )

  length-sorted : (xs : List F) → length (sorted_f xs) ≡ length xs
  unfolding sorted_f
  length-sorted xs = length-sort_by _ xs

  sorted-All : (P : F → Type 0) (xs : List F) → All P xs → All P (sorted_f xs)
  unfolding sorted_f
  sorted-All P xs a = All-sort_by _ P xs a

  sorted-ne_nil : (xs : List F) → xs ≢ [] → sorted_f xs ≢ []
  sorted-ne_nil [] h e = h refl
  sorted-ne_nil (x ∷ xs) h e = absurd (omega (arith, length-sorted (x ∷ xs), ap length e))

  is_empty-ne_nil : (xs : List F) → xs ≢ [] → is_empty xs ≡ false
  is_empty-ne_nil [] h = absurd (h refl)
  is_empty-ne_nil (x ∷ xs) h = refl

  -- The summary of a ring with samples is there, without an error; it counts all the samples, and
  -- what holds of every sample holds of the 95th percentile and the maximum.
  pub summary_total :
      (P : F → Type 0) (name : String) (r : Rings)
      → All P (lookup_or name [] r)
      → lookup_or name [] r ≢ []
      → (s : Stats) × (latency_summary name r ≡ ok (some s))
        × (s.count ≡ length (lookup_or name [] r))
        × P s.p95_ms
        × P s.max_ms
  unfolding latency_summary
  summary_total P name r a h =
      let ring = lookup_or name [] r in
      let (s, e, n, p, m) =
        stats_total P (sorted_f ring) (sorted-All P ring a) (sorted-ne_nil ring h) in
      (
        s,
        rw (is_empty-ne_nil (sorted_f ring) (sorted-ne_nil ring h), e),
        n ∙ length-sorted ring,
        p,
        m,
      )
