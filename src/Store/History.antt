-- ===== src/Store/History.antt =====
-- The store after any calls of `push`, against the whole history of those calls.
use diplom_code.Base.{
  ◌≡◌, refl, ℤ, Bool, ◌||◌, List, [], ◌∷◌, ◌++◌, ◌==◌, string_eq, nat_eq, int_eq, if◌then◌else◌,
  arith, ap, ◌∙◌, inl, inr, Bool-cases, All, ◌≢◌, last_n, any, Ascending, ◌<ℤ◌, last_n-append,
  any-sort_by, Distinct, ◌≤ℤ◌, sort_by-Ascending, leb_ℤ, sort_by-Distinct, last_n_idem,
}
use diplom_code.Base.Dict.{
  keys, lookup, lookup_or, lookup_or-insert, any-keys-insert, insert-Distinct,
}
use diplom_code.Py.{Runtime, Fields}
use diplom_code.Store.{Push, Store, push, record_of, snapshot_session, session_ids, max_per_session}
use mathlib.Core.List.{append-nil, append_assoc}

module _ ⦃rt : Runtime⦄ where
  open rt use {F}

  -- The store after a sequence of calls.
  unfoldable pub run : List Push → Store → Store
  run [] s = s
  run (p ∷ ps) s = run ps (push p s)

  -- What was pushed for one session, oldest first.
  unfoldable pub history : ℤ → List Push → List Fields
  history sid [] = []
  history sid (p ∷ ps) =
      let rest = history sid ps in if p.session_id == sid then record_of p ∷ rest else rest

  buffer-push :
      (p : Push) (sid : ℤ) (s : Store)
      → lookup_or sid [] (push p s) ≡ (
          if p.session_id == sid
          then last_n max_per_session (lookup_or sid [] s ++ record_of p ∷ [])
          else lookup_or sid [] s)
  unfolding push
  buffer-push p sid s = ground (
    arith,
    lookup_or-insert p.session_id sid
        (last_n max_per_session (lookup_or p.session_id [] s ++ record_of p ∷ [])) [] s,
    int_eq.same_iff p.session_id sid,
  )

  buffer-run :
      (sid : ℤ) (ps : List Push) (s : Store) (old : List Fields)
      → lookup_or sid [] s ≡ last_n max_per_session old
      → lookup_or sid [] (run ps s) ≡ last_n max_per_session (old ++ history sid ps)
  unfolding history run
  buffer-run sid [] s old h = rw append-nil h
  buffer-run sid (p ∷ ps) s old h = elim (Bool-cases (p.session_id == sid)) [
    | inl same ↦ rw same (
        buffer-run sid ps (push p s) (old ++ record_of p ∷ []) (
          buffer-push p sid s ∙ rw (same, h) (last_n-append max_per_session old (record_of p ∷ [])))
        ∙ ap (last_n max_per_session) (append_assoc old (record_of p ∷ []) (history sid ps)))
    | inr other ↦ rw other (buffer-run sid ps (push p s) old (buffer-push p sid s ∙ rw other h))
  ]

  -- Whatever is pushed and in whatever order, the snapshot of a session is the last 512 features
  -- pushed for that session, in the order of their arrival.
  pub snapshot-run :
      (sid : ℤ) (ps : List Push) → snapshot_session sid (run ps []) ≡ last_n 512 (history sid ps)
  unfolding snapshot_session lookup_or lookup
  snapshot-run sid ps =
      ap (last_n (512)) (buffer-run sid ps [] [] refl) ∙ last_n_idem 512 (history sid ps)

  keys-run :
      (q : ℤ → Bool) (ps : List Push) (s : Store)
      → any q (keys (run ps s)) ≡ (any q (keys s) || any (λ p. q p.session_id) ps)
  unfolding run push
  keys-run q [] s = ground arith
  keys-run q (p ∷ ps) s = ground (
    arith,
    keys-run q ps (push p s),
    any-keys-insert q p.session_id
        (last_n max_per_session (lookup_or p.session_id [] s ++ record_of p ∷ [])) s,
  )

  -- The sessions listed are exactly those for which something was pushed.
  pub session_ids-run :
      (sid : ℤ) (ps : List Push)
      → any (λ i. i == sid) (session_ids (run ps [])) ≡ any (λ p. p.session_id == sid) ps
  unfolding session_ids
  session_ids-run sid ps = any-sort_by leb_ℤ _ (keys (run ps [])) ∙ keys-run (λ i. i == sid) ps []

  run-Distinct : (ps : List Push) (s : Store) → Distinct (keys s) → Distinct (keys (run ps s))
  unfolding run push
  run-Distinct [] s h = h
  run-Distinct (p ∷ ps) s h = run-Distinct ps (push p s) (insert-Distinct p.session_id _ s h)

  lt_of_le : (x y : ℤ) → x ≤ℤ y → x ≢ y → x <ℤ y
  lt_of_le x y h k = ground arith

  strict_from :
      (x : ℤ) (xs : List ℤ) → All (λ y. x ≤ℤ y) xs → All (λ y. x ≢ y) xs → All (λ y. x <ℤ y) xs
  strict_from x [] a d = tt
  strict_from x (y ∷ ys) a d = (lt_of_le x y a.0 d.0, strict_from x ys a.1 d.1)

  strict : (xs : List ℤ) → Ascending ◌≤ℤ◌ xs → Distinct xs → Ascending ◌<ℤ◌ xs
  strict [] a d = tt
  strict (x ∷ xs) a d = (strict_from x xs a.0 d.0, strict xs a.1 d.1)

  -- The sessions are listed in ascending order, each of them once.
  pub session_ids-Ascending : (ps : List Push) → Ascending ◌<ℤ◌ (session_ids (run ps []))
  unfolding session_ids
  session_ids-Ascending ps =
      strict (session_ids (run ps []))
        (sort_by-Ascending leb_ℤ ◌≤ℤ◌ (λ x y h. ground arith) (λ x y h. ground arith)
          (λ x y z h k. omega arith) (keys (run ps [])))
        (sort_by-Distinct leb_ℤ (keys (run ps [])) (run-Distinct ps [] tt))
