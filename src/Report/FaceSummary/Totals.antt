-- ===== src/Report/FaceSummary/Totals.antt =====
-- The sums of a face behaviour summary.
use diplom_code.Base.{
  ◌≡◌, refl, ℕ, ◌+◌, ◌≤◌, String, Bool, true, false, none, some, List, [], ◌∷◌, string_eq, nat_eq,
  int_eq, eqb, if◌then◌else◌, arith, ◌∙◌, subst, map, sum_by, sum_by-sort_by,
}
use diplom_code.Base.Dict.{Dict, lookup, lookup_or, insert}
use diplom_code.Py.{Runtime, Fields}
use diplom_code.Report.FaceSummary.{
  count_event, Tally, tally, tally_all, ParticipantSummary, Seen, build_face_behavior_summary,
  trackable, seen, summary_of, skipped, FaceSummary, guarded, summarize, empty_tally, more_events,
}

module _ ⦃rt : Runtime⦄ where
  abbrev pub sum_values {ℓ} : {V : Type ℓ} → (V → ℕ) → Dict String V → ℕ
  sum_values g [] = 0
  sum_values g ((k, v) ∷ d) = g v + sum_values g d

  some-injective : {A : Type 0} {a b : A} → some a ≡ some b → a ≡ b
  some-injective h = cc

  pub sum_values-insert {ℓ} :
      {V : Type ℓ} (g : V → ℕ) (k : String) (v z : V) (d : Dict String V)
      → g z ≡ 0
      → sum_values g (insert k v d) + g (lookup_or k z d) ≡ sum_values g d + g v
  unfolding insert lookup_or lookup
  sum_values-insert g k v z [] h = omega (arith, h)
  sum_values-insert g k v z ((j, w) ∷ d) h = ground (arith, sum_values-insert g k v z d h)

  first : ℕ × ℕ → ℕ
  first p = p.0

  second : ℕ × ℕ → ℕ
  second p = p.1

  sums-count_event :
      (pid : String) (n : ℕ) (d : Dict String (ℕ × ℕ))
      → (sum_values first (count_event pid n d) ≡ sum_values first d + 1)
        × (sum_values second (count_event pid n d) ≡ sum_values second d + n)
  unfolding count_event first second
  sums-count_event pid n d =
      let (a, b) = lookup_or pid (0, 0) d in
      (
        omega (arith, sum_values-insert first pid (a + 1, b + n) (0, 0) d refl),
        omega (arith, sum_values-insert second pid (a + 1, b + n) (0, 0) d refl),
      )

  -- The tally agrees with what is noted of the participants.
  abbrev Agrees : Tally → Type 0
  Agrees t =
      (sum_values first t.by_participant ≡ t.events)
      × (sum_values second t.by_participant ≡ t.tracked)
      × (t.tracked ≤ t.events)

  tally-Agrees : (s : Seen) (t : Tally) → Agrees t → Agrees (tally s t)
  unfolding tally
  tally-Agrees skipped t h = h
  tally-Agrees (trackable pid engagement) t (e, k, l) =
      let (x, y) = sums-count_event pid 1 t.by_participant in
      (omega arith, omega arith, omega arith)
  tally-Agrees (guarded pid reason) t (e, k, l) =
      let (x, y) = sums-count_event pid 0 t.by_participant in
      (omega arith, omega arith, omega arith)

  tally_all-Agrees : (fs : List Fields) (t : Tally) → Agrees t → Agrees (tally_all fs t)
  unfolding tally_all
  tally_all-Agrees [] t h = h
  tally_all-Agrees (f ∷ fs) t h = tally_all-Agrees fs (tally (seen f) t) (tally-Agrees (seen f) t h)

  sum_by-summary :
      (g : ParticipantSummary → ℕ) (k : ℕ × ℕ → ℕ) (engagements : Dict String (List rt.F))
      (d : Dict String (ℕ × ℕ))
      → ((pid : String) (p : ℕ × ℕ) → g (summary_of engagements (pid, p)) ≡ k p)
      → sum_by g (map (summary_of engagements) d) ≡ sum_values k d
  sum_by-summary g k engagements [] same = refl
  sum_by-summary g k engagements ((pid, p) ∷ d) same =
      omega (arith, same pid p, sum_by-summary g k engagements d same)

  abbrev pub one_seen : Seen → ℕ
  one_seen skipped = 0
  one_seen _ = 1

  events-tally : (s : Seen) (t : Tally) → (tally s t).events ≡ t.events + one_seen s
  unfolding tally
  events-tally skipped t = omega arith
  events-tally (trackable pid engagement) t = refl
  events-tally (guarded pid reason) t = refl

  events-tally_all :
      (fs : List Fields) (t : Tally)
      → (tally_all fs t).events ≡ t.events + sum_by (λ f. one_seen (seen f)) fs
  unfolding tally_all
  events-tally_all [] t = omega arith
  events-tally_all (f ∷ fs) t =
      omega (arith, events-tally_all fs (tally (seen f) t), events-tally (seen f) t)

  -- What holds of a summary of the features.
  abbrev pub AddsUp : List Fields → FaceSummary → Type 0
  AddsUp features s =
      (s.events ≡ sum_by (λ f. one_seen (seen f)) features)
      × (sum_by (λ p. p.events) s.participants ≡ s.events)
      × (sum_by (λ p. p.trackable_events) s.participants ≡ s.trackable_events)
      × (s.trackable_events ≤ s.events)

  summarize-AddsUp :
      (features : List Fields) → AddsUp features (summarize (tally_all features empty_tally))
  unfolding first second
  summarize-AddsUp features =
      let t = tally_all features empty_tally in
      let (e, k, l) = tally_all-Agrees features empty_tally (refl, refl, omega arith) in
      let participants = map (summary_of t.engagements) t.by_participant in
      (
        omega (arith, events-tally_all features empty_tally),
        sum_by-sort_by more_events (λ p. p.events) participants
            ∙ sum_by-summary (λ p. p.events) first t.engagements t.by_participant (λ pid p. refl)
            ∙ e,
        sum_by-sort_by more_events (λ p. p.trackable_events) participants
            ∙ sum_by-summary (λ p. p.trackable_events) second t.engagements t.by_participant
                (λ pid p. refl)
            ∙ k,
        l,
      )

  some-AddsUp :
      (b : Bool) (features : List Fields) (t s : FaceSummary)
      → AddsUp features t
      → (if b then none else some t) ≡ some s
      → AddsUp features s
  some-AddsUp true features t s a h = cc
  some-AddsUp false features t s a h = subst (AddsUp features) (some-injective h) a

  -- A summary, where there is one, counts every feature with a face behaviour as one event; its
  -- events and its trackable events are those of all its participants together, and not more events
  -- are trackable than there are.
  pub summary-AddsUp :
      (features : List Fields) (s : FaceSummary)
      → build_face_behavior_summary features ≡ some s
      → AddsUp features s
  unfolding build_face_behavior_summary
  summary-AddsUp features s h =
      some-AddsUp (eqb (tally_all features empty_tally).events 0) features
        (summarize (tally_all features empty_tally)) s (summarize-AddsUp features) h
