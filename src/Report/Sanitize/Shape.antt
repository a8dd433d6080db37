-- ===== src/Report/Sanitize/Shape.antt =====
-- The shape of a sanitized report.
use diplom_code.Base.{
  ◌≡◌, refl, ◌≤◌, ℤ, pos, String, true, false, Option, none, some, string_eq, nat_eq, int_eq, arith,
  ap, subst, inl, inr, Bool-cases, is_nil, is_blank, strip, ◌≤ℤ◌, max_ℤ, length_text, contains,
  strip_idem, length-take_text,
}
use diplom_code.Py.{
  Runtime, IsDouble, null, int, float, str, arr, obj, nil, cons, end, field, Value, Items, Fields,
  get, number, zero_f, one_f, Result, ok, ok-injective, >>=-eq-ok, NotOutside,
}
use diplom_code.Report.Sanitize.Values.{
  to_non_empty_str, to_float, int_of, whole, whole_fields, each_dict, to_range, put_whole,
  cons_some, cut_to, raise_to,
}
use diplom_code.Report.Sanitize.{
  sanitize_feature_counts, participant, sanitize_participant, sanitize_participants,
  pipeline_stages, stage_of, sanitize_report_fields, always, sanitize_data_quality,
}
use diplom_code.Report.Sanitize.Fusion.{sanitize_fusion}
use diplom_code.Report.Sanitize.Behavior.{sanitize_face_behavior_summary}

module _ ⦃rt : Runtime⦄ (double : IsDouble rt) where
  open rt use {F, lt, of_int}

  to_range-NotOutside : (o : Option F) → NotOutside (to_range zero_f (some zero_f) (some one_f) o)
  to_range-NotOutside none = (double.zero-lt-zero, double.one-lt-zero)
  to_range-NotOutside (some x) =
      let y = cut_to (some one_f) (raise_to (some zero_f) x) in
      let lower : lt y zero_f ≡ false = ground (arith, double.zero-lt-zero, double.one-lt-zero) in
      let upper : lt one_f y ≡ false = ground (arith, double.one-lt-one, double.one-lt-zero) in
      (double.round-ge-zero 3 y lower, double.round-le-one 3 y upper)

  to_float-NotOutside : (v : Value) → NotOutside (to_float v zero_f (some zero_f) (some one_f))
  unfolding to_float
  to_float-NotOutside v = to_range-NotOutside (number v)

  stage_of_lem : (v : Value) → contains (stage_of v) pipeline_stages ≡ true
  unfolding stage_of
  stage_of_lem v = elim (Bool-cases (contains (to_non_empty_str v "idle") pipeline_stages)) [
    | inl known ↦ rw known known
    | inr unknown ↦ rw unknown refl
  ]

  -- Every value is an integer that is not negative.
  abbrev pub Counts : Fields → Type 0
  Counts end = Unit {0}
  Counts (field k (int n) fs) = (pos 0 ≤ℤ n) × Counts fs
  Counts (field k _ fs) = ⊥

  max_nonneg : (n : ℤ) → pos 0 ≤ℤ max_ℤ (pos 0) n
  max_nonneg n = ground arith

  put_whole-Counts :
      (k : String) (o : Option (Result ℤ)) (rest : Result Fields)
      → ((m : Fields) → rest ≡ ok m → Counts m)
      → (out : Fields) → put_whole (max_ℤ (pos 0)) k o rest ≡ ok out
      → Counts out
  put_whole-Counts k none rest c out h = c out h
  put_whole-Counts k (some r) rest c out h =
      let (n, _, h1) = >>=-eq-ok r _ h in
      let (more, e, h2) = >>=-eq-ok rest _ h1 in
      subst Counts (ok-injective h2) (max_nonneg n, c more e)

  whole_fields-Counts : (fs out : Fields) → whole_fields (max_ℤ (pos 0)) fs ≡ ok out → Counts out
  unfolding whole_fields
  whole_fields-Counts end out h = subst Counts (ok-injective h) tt
  whole_fields-Counts (field k v fs) out h =
      put_whole-Counts k (whole v) (whole_fields (max_ℤ (pos 0)) fs) (whole_fields-Counts fs) out h

  -- The fields of a participant.
  abbrev pub IsParticipant : Value → Type 0
  IsParticipant (obj p) =
      (pid : String) × (transcript : String) × (ratio : F) × (get "participant_id" p ≡ str pid)
      × (is_blank pid ≡ false)
      × (get "last_transcript" p ≡ str transcript)
      × (length_text transcript ≤ 180)
      × (get "avg_speech_activity_proxy" p ≡ float ratio)
      × NotOutside ratio
  IsParticipant _ = ⊥

  abbrev pub AllItems : (Value → Type 0) → Items → Type 0
  AllItems P nil = Unit {0}
  AllItems P (cons v xs) = P v × AllItems P xs

  is_blank-strip : (s : String) → is_blank (strip s) ≡ is_blank s
  unfolding is_blank
  is_blank-strip s = ap is_nil (strip_idem s)

  filled_text :
      (v : Value) (default : String)
      → is_blank default ≡ false
      → is_blank (to_non_empty_str v default) ≡ false
  unfolding to_non_empty_str
  filled_text (str s) default h = ground (arith, is_blank-strip s)
  filled_text null default h = h
  filled_text _ default h = h

  unknown_filled : is_blank "unknown" ≡ false
  unfolding is_blank
  unknown_filled = refl

  sanitize_participant_lem :
      (raw : Fields) (v : Value) → sanitize_participant raw ≡ ok v → IsParticipant v
  unfolding sanitize_participant
  sanitize_participant_lem raw v h =
      let (chunks, _, h1) =
        >>=-eq-ok (int_of (to_float (get "audio_chunks" raw) zero_f (some zero_f) none)) _ h in
      subst IsParticipant (ok-injective h1) (parts chunks)
    where
      parts : (chunks : ℤ) → IsParticipant (participant raw chunks)
      parts chunks = (
        _,
        _,
        _,
        refl,
        filled_text (get "participant_id" raw) "unknown" unknown_filled,
        refl,
        length-take_text 180 _,
        refl,
        to_float-NotOutside _,
      )

  each_dict_lem :
      (f : Fields → Result (Option Value)) (P : Value → Type 0)
      → ((fs : Fields) (v : Value) → f fs ≡ ok (some v) → P v)
      → (xs out : Items) → each_dict f xs ≡ ok out
      → AllItems P out
  unfolding each_dict
  each_dict_lem f P each nil out h = subst (AllItems P) (ok-injective h) tt
  each_dict_lem f P each (cons (obj fs) xs) out h =
      let (o, e, h1) = >>=-eq-ok (f fs) _ h in
      let (more, rest, h2) = >>=-eq-ok (each_dict f xs) _ h1 in
      subst (AllItems P) (ok-injective h2)
        (kept o more (each fs) e (each_dict_lem f P each xs more rest))
    where
      kept :
          (o : Option Value) (more : Items)
          → ((v : Value) → f fs ≡ ok (some v) → P v)
          → f fs ≡ ok o
          → AllItems P more
          → AllItems P (cons_some o more)
      kept none more p e a = a
      kept (some v) more p e a = (p v e, a)
  each_dict_lem f P each (cons _ xs) out h = each_dict_lem f P each xs out h

  always_lem : (r : Result Value) (v : Value) → always r ≡ ok (some v) → r ≡ ok v
  always_lem r v h = let (w, e, h1) = >>=-eq-ok r _ h in cc (e, h1)

  participants_lem :
      (v : Value) (out : Items) → sanitize_participants v ≡ ok out → AllItems IsParticipant out
  unfolding sanitize_participants
  participants_lem (arr xs) out h =
      each_dict_lem (λ raw. always (sanitize_participant raw)) IsParticipant
        (λ raw v e. sanitize_participant_lem raw v (always_lem (sanitize_participant raw) v e)) xs
        out h
  participants_lem null out h = subst (AllItems IsParticipant) (ok-injective h) tt
  participants_lem _ out h = subst (AllItems IsParticipant) (ok-injective h) tt

  counts_lem : (v : Value) (out : Fields) → sanitize_feature_counts v ≡ ok out → Counts out
  unfolding sanitize_feature_counts
  counts_lem (obj fs) out h = whole_fields-Counts fs out h
  counts_lem null out h = subst Counts (ok-injective h) tt
  counts_lem _ out h = subst Counts (ok-injective h) tt

  -- What the user interface may rely on in a report.
  pub record IsShaped (out : Fields) : Type 0 where
    pub stage : String
    pub ratio : F
    pub counts : Fields
    pub participants : Items
    pub get_stage : get "pipeline_stage" out ≡ str stage
    pub known_stage : contains stage pipeline_stages ≡ true
    pub get_ratio : get "speech_ratio" out ≡ float ratio
    pub ratio_inside : NotOutside ratio
    pub get_counts : get "feature_counts" out ≡ obj counts
    pub counts_nonneg : Counts counts
    pub get_participants : get "participants" out ≡ arr participants
    pub all_participants : AllItems IsParticipant participants

  -- Whatever object the remote model returns, if it is accepted at all then the report has a stage
  -- that the program knows, a speech ratio and activities that are not outside of 0.0 and 1.0,
  -- counts that are integers and not negative, and participants that have a name and a transcript
  -- of at most 180 characters.
  pub sanitized-IsShaped :
      (raw : Fields) (session_id : ℤ) (out : Fields)
      → sanitize_report_fields raw session_id ≡ ok out
      → IsShaped out
  unfolding sanitize_report_fields
  sanitized-IsShaped raw session_id out h =
      let (sid, _, h1) =
        >>=-eq-ok (int_of (to_float (get "session_id" raw) (of_int session_id) (some zero_f) none))
          _ h in
      let (counts, counted, h2) =
        >>=-eq-ok (sanitize_feature_counts (get "feature_counts" raw)) _ h1 in
      let (people, listed, h3) = >>=-eq-ok (sanitize_participants (get "participants" raw)) _ h2 in
      let (fusion, _, h4) = >>=-eq-ok (sanitize_fusion (get "fusion" raw)) _ h3 in
      let (behavior, _, h5) =
        >>=-eq-ok (sanitize_face_behavior_summary (get "face_behavior_summary" raw)) _ h4 in
      let (quality, _, h6) = >>=-eq-ok (sanitize_data_quality (get "data_quality" raw)) _ h5 in
      subst IsShaped (ok-injective h6) (record {
        stage = stage_of (get "pipeline_stage" raw);
        ratio = to_float (get "speech_ratio" raw) zero_f (some zero_f) (some one_f);
        counts = counts;
        participants = people;
        get_stage = refl;
        known_stage = stage_of_lem (get "pipeline_stage" raw);
        get_ratio = refl;
        ratio_inside = to_float-NotOutside (get "speech_ratio" raw);
        get_counts = refl;
        counts_nonneg = counts_lem (get "feature_counts" raw) counts counted;
        get_participants = refl;
        all_participants = participants_lem (get "participants" raw) people listed;
      })
