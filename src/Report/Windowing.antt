-- ===== src/Report/Windowing.antt =====
-- code/ai-gateway/modules/report/windowing.py: the features of a report grouped by participant and
-- time bucket, and the trace ids of each participant.
pub mod Totals
use diplom_code.Base.{
  ◌≡◌, refl, ℕ, zero, suc, ◌+◌, ◌-◌, ◌≤◌, ◌<◌, ℤ, pos, negsuc, String, Bool, true, false, not, ◌&&◌,
  ◌||◌, Option, none, some, List, [], ◌∷◌, ◌++◌, ◌==◌, string_eq, nat_eq, int_eq, ltb, leb, eqb,
  if◌then◌else◌, arith, ap, sym, ◌∙◌, subst, inl, inr, ◌⊎◌, Bool-cases, Option-cases, length, map,
  All, filter, is_nil, is_blank, is_empty, strip, ◌≢◌, ◌↔◌, ◌+ℤ◌, ◌-ℤ◌, ◌*ℤ◌, ◌≤ℤ◌, ◌<ℤ◌, ltb_ℤ,
  leb_ℤ, eqb_ℤ, min_ℤ, max_ℤ, pos_part, neg_part, sub_ℕ, ◌*◌, ◌/◌, ◌^◌, ◌<>◌, last_n, take, drop,
  any, all, get_elem?, sort_by, length-append, last_n-append, take_text, length_text, set_add,
  text_leb,
}
use diplom_code.Base.Dict.{Dict, keys, lookup, lookup_or, insert, lookup-insert, lookup_or-insert}
use diplom_code.Py.{
  Runtime, IsDouble, null, bool, int, float, str, arr, obj, nil, cons, end, field, Value, Items,
  Fields, get, get_or, has, fields, items, number, truthy, or_else, text_of, is_filled, is_str,
  is_dict, is_list, is_bool, is_null, dict_or_empty, zero_f, one_f, min_f, max_f, set_field, update,
  whole, opt_str, opt_float, opt_int, Result, ok, raise, ◌>>=◌, ◌>>◌, require,
}

module _ ⦃rt : Runtime⦄ where
  open rt use {F, lt, mul, of_int, floor_div, parse_float, round_at, show_int}

  -- `str(f.get("participant_id") or "unknown")`
  abbrev pub participant_of : Fields → String
  participant_of f = text_of (or_else (get "participant_id" f) (str "unknown"))

  abbrev filled_text : Value → Option String
  filled_text (str s) = if is_blank s then none else some (strip s)
  filled_text _ = none

  -- `tid.strip()` where the trace id is a text that is not blank
  abbrev pub trace_of : Fields → Option String
  trace_of f = filled_text (get "trace_id" f)

  abbrev pub add_trace : Option String → List String → List String
  add_trace none xs = xs
  add_trace (some t) xs = set_add t xs

  abbrev trace_step : Option String → String → Dict String (List String) → Dict String (List String)
  trace_step none pid d = d
  trace_step (some t) pid d = insert pid (set_add t (lookup_or pid [] d)) d

  -- `trace_by_participant`
  unfoldable pub trace_index : List Fields → Dict String (List String) → Dict String (List String)
  trace_index [] d = d
  trace_index (f ∷ fs) d = trace_index fs (trace_step (trace_of f) (participant_of f) d)

  abbrev or_zero : Option F → F
  or_zero none = zero_f
  or_zero (some x) = x

  -- `float(ts_raw)`, or 0.0 where that is a `TypeError` or a `ValueError`
  unfoldable pub ts_of : Value → F
  ts_of (str s) = or_zero (parse_float s)
  ts_of v = or_zero (number v)

  -- `int(ts // bucket_sec)`
  unfoldable pub bucket_of : F → Fields → Result ℤ
  unfolding ts_of
  bucket_of bucket_sec f = whole (floor_div (ts_of (get "ts" f)) bucket_sec)

  pub record Slot : Type 0 where
    pub participant_id : String
    pub bucket_index : ℤ
    pub bucket_start_ts : F
    pub kinds : Dict String ℕ
    pub trace_ids : List String

  -- `f.get("kind") or "unknown"`, if it is a text
  abbrev pub kind_of : Fields → Option String
  kind_of f = elim (or_else (get "kind" f) (str "unknown")) [ str k ↦ some k | _ ↦ none ]

  -- `kinds[kind] += 1`
  unfoldable pub count_kind : Option String → Dict String ℕ → Dict String ℕ
  count_kind none d = d
  count_kind (some k) d = insert k (lookup_or k 0 d + 1) d

  abbrev fresh_slot : F → String → ℤ → Slot
  fresh_slot bucket_sec pid b = record {
    participant_id = pid;
    bucket_index = b;
    bucket_start_ts = round_at 3 (mul (of_int b) bucket_sec);
    kinds = [];
    trace_ids = [];
  }

  unfoldable pub slot_key : String → ℤ → String
  slot_key pid b = pid <> "|" <> show_int b

  abbrev grow_slot : Fields → Slot → Slot
  grow_slot f slot = record slot {
    kinds = count_kind (kind_of f) slot.kinds;
    trace_ids = add_trace (trace_of f) slot.trace_ids;
  }

  -- One round of the loop over the features, for a feature in bucket `b`.
  unfoldable pub put_feature : F → Fields → ℤ → Dict String Slot → Dict String Slot
  put_feature bucket_sec f b by_key =
      let pid = participant_of f in
      let key = slot_key pid b in
      insert key (grow_slot f (lookup_or key (fresh_slot bucket_sec pid b) by_key)) by_key

  unfoldable pub fill_slots : F → List Fields → Dict String Slot → Result (Dict String Slot)
  fill_slots bucket_sec [] by_key = ok by_key
  fill_slots bucket_sec (f ∷ fs) by_key = do
    b ← bucket_of bucket_sec f
    fill_slots bucket_sec fs (put_feature bucket_sec f b by_key)

  abbrev pub values {ℓ} : {V : Type ℓ} → Dict String V → List V
  values [] = []
  values ((k, v) ∷ d) = v ∷ values d

  -- The order of `(x["participant_id"], x["bucket_index"])`.
  unfoldable pub slot_leb : Slot → Slot → Bool
  slot_leb a b =
      if a.participant_id == b.participant_id
      then leb_ℤ a.bucket_index b.bucket_index
      else text_leb a.participant_id b.participant_id

  pub record FusionMeta : Type 0 where
    pub bucket_sec : F
    pub trace_ids_by_participant : Dict String (List String)
    pub buckets : List Slot

  abbrev sorted_traces : List String → List String
  sorted_traces = sort_by text_leb

  unfoldable pub finish_slot : Slot → Slot
  finish_slot slot = record slot { trace_ids = sorted_traces slot.trace_ids }

  -- The buckets, of which there are none if `bucket_sec` is not positive.
  unfoldable pub buckets_of : List Fields → F → Result (List Slot)
  buckets_of features bucket_sec =
      if lt zero_f bucket_sec
      then (do
        by_key ← fill_slots bucket_sec features []
        ok (sort_by slot_leb (map finish_slot (values by_key))))
      else ok []

  abbrev pub meta_of : List Fields → F → List Slot → FusionMeta
  meta_of features bucket_sec slots = record {
    bucket_sec = if lt zero_f bucket_sec then round_at 3 bucket_sec else zero_f;
    trace_ids_by_participant =
        sort_by (λ a b. text_leb a.0 b.0)
          (map (λ (pid, traces). (pid, sorted_traces traces)) (trace_index features []));
    buckets = slots;
  }

  unfoldable pub compute_fusion_meta : List Fields → F → Result FusionMeta
  compute_fusion_meta features bucket_sec = do
    slots ← buckets_of features bucket_sec
    ok (meta_of features bucket_sec slots)
