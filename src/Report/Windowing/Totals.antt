-- ===== src/Report/Windowing/Totals.antt =====
-- Nothing is lost in the buckets: their counts add up to the features.
use diplom_code.Base.{
  ◌≡◌, refl, ℕ, ◌+◌, ℤ, String, true, Option, none, some, List, [], ◌∷◌, string_eq, nat_eq, int_eq,
  arith, map, All, sort_by, sum_by, sum_by-sort_by,
}
use diplom_code.Base.Dict.{Dict, lookup, lookup_or, insert}
use diplom_code.Py.{Runtime, Fields, get, zero_f, ok}
use diplom_code.Report.Windowing.{
  participant_of, bucket_of, ts_of, Slot, kind_of, count_kind, fresh_slot, slot_key, grow_slot,
  put_feature, fill_slots, values, slot_leb, FusionMeta, finish_slot, buckets_of,
  compute_fusion_meta, meta_of,
}

module _ ⦃rt : Runtime⦄ where
  open rt use {F, lt, is_finite, floor_div, trunc}

  abbrev pub counts_total : Dict String ℕ → ℕ
  counts_total d = sum_by (λ (k, n). n) d

  abbrev pub slot_total : Slot → ℕ
  slot_total slot = counts_total slot.kinds

  abbrev one_if : Option String → ℕ
  one_if none = 0
  one_if (some k) = 1

  -- The features whose kind is a text.
  abbrev pub kinds_seen : List Fields → ℕ
  kinds_seen fs = sum_by (λ f. one_if (kind_of f)) fs

  counts-insert :
      (k : String) (n : ℕ) (d : Dict String ℕ)
      → counts_total (insert k n d) + lookup_or k 0 d ≡ counts_total d + n
  unfolding insert lookup_or lookup
  counts-insert k n [] = omega arith
  counts-insert k n ((j, m) ∷ d) = ground (arith, counts-insert k n d)

  counts-count_kind :
      (o : Option String) (d : Dict String ℕ)
      → counts_total (count_kind o d) ≡ counts_total d + one_if o
  unfolding count_kind
  counts-count_kind none d = omega arith
  counts-count_kind (some k) d = omega (arith, counts-insert k (lookup_or k 0 d + 1) d)

  slots-insert :
      (k : String) (s empty : Slot) (d : Dict String Slot)
      → slot_total empty ≡ 0
      → sum_by slot_total (values (insert k s d)) + slot_total (lookup_or k empty d)
        ≡ sum_by slot_total (values d) + slot_total s
  unfolding insert lookup_or lookup
  slots-insert k s empty [] h = omega arith
  slots-insert k s empty ((j, t) ∷ d) h = ground (arith, slots-insert k s empty d h)

  slots-put_feature :
      (bucket_sec : F) (f : Fields) (b : ℤ) (d : Dict String Slot)
      → sum_by slot_total (values (put_feature bucket_sec f b d))
        ≡ sum_by slot_total (values d) + one_if (kind_of f)
  unfolding put_feature
  slots-put_feature bucket_sec f b d =
      let pid = participant_of f in
      let old = lookup_or (slot_key pid b) (fresh_slot bucket_sec pid b) d in
      omega (
        arith,
        slots-insert (slot_key pid b) (grow_slot f old) (fresh_slot bucket_sec pid b) d refl,
        counts-count_kind (kind_of f) old.kinds,
      )

  -- The time of a feature (0.0, where it is no number) divided by the length of the buckets is finite.
  abbrev pub HasBucket : F → Fields → Type 0
  HasBucket bucket_sec f = is_finite (floor_div (ts_of (get "ts" f)) bucket_sec) ≡ true

  fill_slots_total :
      (bucket_sec : F) (fs : List Fields) (d : Dict String Slot)
      → All (HasBucket bucket_sec) fs
      → (d' : Dict String Slot) × (fill_slots bucket_sec fs d ≡ ok d')
        × (sum_by slot_total (values d') ≡ sum_by slot_total (values d) + kinds_seen fs)
  unfolding fill_slots bucket_of
  fill_slots_total bucket_sec [] d h = (d, refl, omega arith)
  fill_slots_total bucket_sec (f ∷ fs) d h =
      let b = trunc (floor_div (ts_of (get "ts" f)) bucket_sec) in
      let (d', e, total) = fill_slots_total bucket_sec fs (put_feature bucket_sec f b d) h.1 in
      (d', rw h.0 e, omega (arith, total, slots-put_feature bucket_sec f b d))

  finish_slots_total :
      (slots : List Slot) → sum_by slot_total (map finish_slot slots) ≡ sum_by slot_total slots
  unfolding finish_slot
  finish_slots_total [] = refl
  finish_slots_total (s ∷ slots) = omega (arith, finish_slots_total slots)

  -- When the buckets have a positive length and the time of every feature divided by it is finite,
  -- the grouping returns, and the counts by kind in all its buckets add up to the number of features whose kind
  -- is a text, or is missing.
  pub fusion_counts :
      (features : List Fields) (bucket_sec : F)
      → All (HasBucket bucket_sec) features
      → lt zero_f bucket_sec ≡ true
      → (meta : FusionMeta) × (compute_fusion_meta features bucket_sec ≡ ok meta)
        × (sum_by slot_total meta.buckets ≡ kinds_seen features)
  unfolding compute_fusion_meta buckets_of
  fusion_counts features bucket_sec h positive =
      let (d, filled, total) = fill_slots_total bucket_sec features [] h in
      let slots = sort_by slot_leb (map finish_slot (values d)) in
      (
        meta_of features bucket_sec slots,
        rw (positive, filled),
        omega (
          arith,
          total,
          sum_by-sort_by slot_leb slot_total (map finish_slot (values d)),
          finish_slots_total (values d),
        ),
      )
