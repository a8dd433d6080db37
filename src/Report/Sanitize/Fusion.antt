-- ===== src/Report/Sanitize/Fusion.antt =====
-- code/ai-gateway/report_loop.py: the `fusion` part of a remote report.
use diplom_code.Base.{String, Option, none, some, string_eq, nat_eq, int_eq, if◌then◌else◌}
use diplom_code.Py.{
  Runtime, float, str, arr, obj, nil, cons, end, field, Value, Items, Fields, get, has, number,
  Result, ok, ◌>>=◌, fields_end,
}
use diplom_code.Report.Sanitize.Values.{whole_fields, each_dict}

module _ ⦃rt : Runtime⦄ where
  open rt use {F, lt, of_int, is_nan, is_finite, trunc, round_at}

  -- `[str(x) for x in v if isinstance(x, str)]`
  abbrev texts_of : Items → Items
  texts_of nil = nil
  texts_of (cons (str s) xs) = cons (str s) (texts_of xs)
  texts_of (cons _ xs) = texts_of xs

  abbrev trace_lists : Fields → Fields
  trace_lists end = end
  trace_lists (field k (arr xs) fs) = field k (arr (texts_of xs)) (trace_lists fs)
  trace_lists (field k _ fs) = trace_lists fs

  abbrev copy_field : String → Fields → Fields → Fields
  copy_field k b rest = if has k b then field k (get k b) rest else rest

  abbrev trace_entry : Value → Fields
  trace_entry (arr xs) = field "trace_ids" (arr (texts_of xs)) end
  trace_entry _ = end

  abbrev kinds_entry : Value → Fields → Result Fields
  kinds_entry (obj km) rest = do ks ← whole_fields (λ n. n) km; ok (field "kinds" (obj ks) rest)
  kinds_entry _ rest = ok rest

  -- One bucket; an empty one is dropped.
  sanitize_bucket : Fields → Result (Option Value)
  sanitize_bucket b = do
    rest ← kinds_entry (get "kinds" b) (trace_entry (get "trace_ids" b))
    let entry =
        copy_field "participant_id" b
          (copy_field "bucket_index" b (copy_field "bucket_start_ts" b rest))
    ok (if fields_end entry then none else some (obj entry))

  abbrev buckets_entry : Value → Result Fields
  buckets_entry (arr xs) = do bs ← each_dict sanitize_bucket xs; ok (field "buckets" (arr bs) end)
  buckets_entry _ = ok end

  abbrev traces_entry : Value → Fields → Fields
  traces_entry (obj fs) rest = field "trace_ids_by_participant" (obj (trace_lists fs)) rest
  traces_entry _ rest = rest

  abbrev bucket_sec_entry : Option F → Fields → Fields
  bucket_sec_entry none rest = rest
  bucket_sec_entry (some x) rest = field "bucket_sec" (float (round_at 3 x)) rest

  -- `_sanitize_fusion`
  unfoldable pub sanitize_fusion : Value → Result (Option Value)
  unfolding sanitize_bucket
  sanitize_fusion (obj v) = do
    rest ← buckets_entry (get "buckets" v)
    let out =
        bucket_sec_entry (number (get "bucket_sec" v))
          (traces_entry (get "trace_ids_by_participant" v) rest)
    ok (if fields_end out then none else some (obj out))
  sanitize_fusion _ = ok none
