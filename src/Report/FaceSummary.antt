-- ===== src/Report/FaceSummary.antt =====
-- code/ai-gateway/modules/report/face_behavior.py: the face behaviour of a session, summed up for the
-- report.
pub mod Totals
use diplom_code.Base.{
  ◌≡◌, refl, ℕ, zero, suc, ◌+◌, ◌-◌, ◌≤◌, ◌<◌, ℤ, pos, negsuc, String, Bool, true, false, not, ◌&&◌,
  ◌||◌, Option, none, some, List, [], ◌∷◌, ◌++◌, ◌==◌, string_eq, nat_eq, int_eq, ltb, leb, eqb,
  if◌then◌else◌, arith, ap, sym, ◌∙◌, subst, inl, inr, ◌⊎◌, Bool-cases, Option-cases, length, map,
  All, filter, is_nil, is_blank, is_empty, strip, ◌≢◌, ◌↔◌, ◌+ℤ◌, ◌-ℤ◌, ◌*ℤ◌, ◌≤ℤ◌, ◌<ℤ◌, ltb_ℤ,
  leb_ℤ, eqb_ℤ, min_ℤ, max_ℤ, pos_part, neg_part, sub_ℕ, ◌*◌, ◌/◌, ◌^◌, ◌<>◌, last_n, take, drop,
  any, all, get_elem?, sort_by, length-append, last_n-append, take_text, length_text,
}
use diplom_code.Base.Dict.{Dict, keys, lookup, lookup_or, insert, lookup-insert, lookup_or-insert}
use diplom_code.Py.{
  Runtime, IsDouble, null, bool, int, float, str, arr, obj, nil, cons, end, field, Value, Items,
  Fields, get, get_or, has, fields, items, number, truthy, or_else, text_of, is_filled, is_str,
  is_dict, is_list, is_bool, is_null, dict_or_empty, zero_f, one_f, min_f, max_f, set_field, update,
  opt_str, opt_float, opt_int, Result, ok, raise, ◌>>=◌, ◌>>◌, require,
}
use diplom_code.Report.Windowing.{participant_of}

module _ ⦃rt : Runtime⦄ where
  open rt use {F, add, div, of_int, round_at}

  -- What one feature adds: nothing, an event that is trackable with its engagement, or one that is
  -- not with the reason.
  pub data Seen : Type 0 where
    skipped : Seen
    trackable : String → Option F → Seen
    guarded : String → Option String → Seen

  abbrev reason_of : Value → Option String
  reason_of (str s) = if is_blank s then none else some (strip s)
  reason_of _ = none

  abbrev seen_as : String → Fields → Fields → Value → Seen
  seen_as pid behavior quality (bool true) =
      trackable pid (number (get "engagement_proxy" behavior))
  seen_as pid behavior quality _ = guarded pid (reason_of (get "guard_reason" quality))

  abbrev seen_behavior : String → Value → Seen
  seen_behavior pid (obj behavior) =
      let quality = dict_or_empty (get "quality" behavior) in
      seen_as pid behavior quality (get "trackable" quality)
  seen_behavior pid _ = skipped

  abbrev is_face : Value → Bool
  is_face (str s) = s == "face"
  is_face _ = false

  -- The tests at the head of the loop.
  unfoldable pub seen : Fields → Seen
  seen f =
      if is_face (get "kind" f)
      then seen_behavior (participant_of f) (get "face_behavior" (dict_or_empty (get "data" f)))
      else skipped

  -- Events, and those of them that are trackable.
  pub record Tally : Type 0 where
    pub events : ℕ
    pub tracked : ℕ
    pub guard_reasons : Dict String ℕ
    pub engagements : Dict String (List F)
    pub by_participant : Dict String (ℕ × ℕ)

  abbrev pub empty_tally : Tally
  empty_tally = record {
    events = 0;
    tracked = 0;
    guard_reasons = [];
    engagements = [];
    by_participant = [];
  }

  abbrev add_engagement : String → Option F → Dict String (List F) → Dict String (List F)
  add_engagement pid none d = d
  add_engagement pid (some x) d = insert pid (lookup_or pid [] d ++ x ∷ []) d

  abbrev add_reason : Option String → Dict String ℕ → Dict String ℕ
  add_reason none d = d
  add_reason (some r) d = insert r (lookup_or r 0 d + 1) d

  -- `participant_totals[pid]` after an event
  unfoldable pub count_event : String → ℕ → Dict String (ℕ × ℕ) → Dict String (ℕ × ℕ)
  count_event pid n d =
      let (events, tracked) = lookup_or pid (0, 0) d in insert pid (events + 1, tracked + n) d

  unfoldable pub tally : Seen → Tally → Tally
  tally skipped t = t
  tally (trackable pid engagement) t = record {
    events = t.events + 1;
    tracked = t.tracked + 1;
    guard_reasons = t.guard_reasons;
    engagements = add_engagement pid engagement t.engagements;
    by_participant = count_event pid 1 t.by_participant;
  }
  tally (guarded pid reason) t = record {
    events = t.events + 1;
    tracked = t.tracked;
    guard_reasons = add_reason reason t.guard_reasons;
    engagements = t.engagements;
    by_participant = count_event pid 0 t.by_participant;
  }

  unfoldable pub tally_all : List Fields → Tally → Tally
  tally_all [] t = t
  tally_all (f ∷ fs) t = tally_all fs (tally (seen f) t)

  sum_f : F → List F → F
  sum_f acc [] = acc
  sum_f acc (x ∷ xs) = sum_f (add acc x) xs

  -- `_mean`
  unfoldable pub mean : List F → Option F
  unfolding sum_f
  mean [] = none
  mean (x ∷ xs) = some (round_at 3 (div (sum_f zero_f (x ∷ xs)) (of_int (pos (length (x ∷ xs))))))

  abbrev ratio : ℕ → ℕ → F
  ratio tracked events =
      if ltb 0 events then round_at 3 (div (of_int (pos tracked)) (of_int (pos events))) else zero_f

  pub record ParticipantSummary : Type 0 where
    pub participant_id : String
    pub events : ℕ
    pub trackable_events : ℕ
    pub trackable_ratio : F
    pub avg_engagement_proxy : Option F

  pub record FaceSummary : Type 0 where
    pub events : ℕ
    pub trackable_events : ℕ
    pub trackable_ratio : F
    pub guard_reasons : Dict String ℕ
    pub participants : List ParticipantSummary

  abbrev pub summary_of : Dict String (List F) → String × (ℕ × ℕ) → ParticipantSummary
  summary_of engagements (pid, (events, tracked)) = record {
    participant_id = pid;
    events = events;
    trackable_events = tracked;
    trackable_ratio = ratio tracked events;
    avg_engagement_proxy = mean (lookup_or pid [] engagements);
  }

  -- More events come first, and the order of arrival decides between equals.
  abbrev pub more_events : ParticipantSummary → ParticipantSummary → Bool
  more_events p q = leb q.events p.events

  abbrev pub summarize : Tally → FaceSummary
  summarize t = record {
    events = t.events;
    trackable_events = t.tracked;
    trackable_ratio = ratio t.tracked t.events;
    guard_reasons = t.guard_reasons;
    participants = sort_by more_events (map (summary_of t.engagements) t.by_participant);
  }

  unfoldable pub build_face_behavior_summary : List Fields → Option FaceSummary
  build_face_behavior_summary features =
      let t = tally_all features empty_tally in if eqb t.events 0 then none else some (summarize t)
