-- ===== src/Report/Sanitize/Behavior.antt =====
-- code/ai-gateway/report_loop.py: the `face_behavior_summary` part of a remote report.
use diplom_code.Base.{
  ℤ, pos, true, false, Option, none, some, [], ◌∷◌, string_eq, nat_eq, int_eq, if◌then◌else◌, max_ℤ,
}
use diplom_code.Py.{
  Runtime, int, float, arr, obj, end, field, Value, Fields, get, fields, is_filled, zero_f, one_f,
  Result, ok, ◌>>=◌,
}
use diplom_code.Report.Sanitize.Values.{int_of, whole_fields, each_dict, to_float, whole}

module _ ⦃rt : Runtime⦄ where
  open rt use {F, lt, of_int, is_nan, is_finite, trunc, round_at}

  -- `int(max(0, v))` where `isinstance(v, (int, float))`
  whole_nonneg : Value → Option (Result ℤ)
  whole_nonneg (float x) = some (if lt zero_f x then int_of x else ok (pos 0))
  whole_nonneg (int n) = some (ok (max_ℤ (pos 0) n))
  whole_nonneg v = whole v

  -- A participant without a name is dropped.
  behavior_participant : Fields → Result (Option Value)
  behavior_participant p = elim (is_filled (get "participant_id" p)) [
    | false ↦ ok none
    | true ↦ do
      events ← int_of (to_float (get "events" p) zero_f (some zero_f) none)
      trackable ← int_of (to_float (get "trackable_events" p) zero_f (some zero_f) none)
      ok (
          some (
            obj (
              fields (
                ("participant_id", get "participant_id" p)
                ∷ ("events", int events)
                ∷ ("trackable_events", int trackable)
                ∷ (
                  "trackable_ratio",
                  float (to_float (get "trackable_ratio" p) zero_f (some zero_f) (some one_f)),
                )
                ∷ (
                  "avg_engagement_proxy",
                  float (to_float (get "avg_engagement_proxy" p) zero_f (some zero_f) (some one_f)),
                )
                ∷ []))))
  ]

  abbrev reasons_entry : Value → Fields → Result Fields
  reasons_entry (obj fs) rest = do
    r ← whole_fields (λ n. n) fs
    ok (field "guard_reasons" (obj r) rest)
  reasons_entry _ rest = ok rest

  abbrev behavior_participants : Value → Result Fields
  behavior_participants (arr xs) = do
    ps ← each_dict behavior_participant xs
    ok (field "participants" (arr ps) end)
  behavior_participants _ = ok end

  -- Both counts, if both are numbers.
  abbrev both : Option (Result ℤ) → Option (Result ℤ) → Option (Result (ℤ × ℤ))
  both (some a) (some b) = some (do m ← a; n ← b; ok (m, n))
  both _ _ = none

  -- `_sanitize_face_behavior_summary`
  unfoldable pub sanitize_face_behavior_summary : Value → Result (Option Value)
  unfolding whole_nonneg behavior_participant
  sanitize_face_behavior_summary (obj v) =
      elim (both (whole_nonneg (get "events" v)) (whole_nonneg (get "trackable_events" v))) [
        | none ↦ ok none
        | some counts ↦ do
          (events, trackable) ← counts
          participants ← behavior_participants (get "participants" v)
          rest ← reasons_entry (get "guard_reasons" v) participants
          ok (
              some (
                obj (
                  field "events" (int events) (
                    field "trackable_events" (int trackable) (
                      field "trackable_ratio"
                        (float
                          (to_float (get "trackable_ratio" v) zero_f (some zero_f) (some one_f)))
                        rest)))))
      ]
  sanitize_face_behavior_summary _ = ok none
