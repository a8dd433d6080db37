-- ===== src/Report/Stub/Totals.antt =====
-- code/ai-gateway/modules/report/stub_builder.py: the sums of what is collected.
use diplom_code.Base.{
  string_eq, int_eq, nat_eq, ◌≡◌, refl, ℕ, ◌+◌, ◌≤◌, String, Bool, true, false, Option, none, some,
  List, [], ◌∷◌, ◌==◌, if◌then◌else◌, inl, inr, Bool-cases, arith, ◌∙◌, ap, subst, ltb, length, All,
  ◌⊎◌,
}
use diplom_code.Base.Dict.{Dict, lookup, lookup_or, lookup_or-insert}
use diplom_code.Py.{
  Runtime, Value, Fields, null, bool, int, float, str, arr, obj, ok, Surely-if, Surely, IsOk,
  Surely->>=, number, zero_f, dict_or_empty, get,
}
use diplom_code.Report.FaceSummary.Totals.{sum_values, sum_values-insert}
use diplom_code.Report.Stub.Collect.{
  Row, Collected, nothing_collected, empty_row, in_row, bump, on_kind, on_audio, on_face, on_text,
  on_debug, note_emotion, note_text, count_debug, branch, collect_one, collect, bucket_index,
  debug_event, kind_value, with_emotion, with_text, count_speech, face_features_of, is_false,
  max_debug_events, bucket_at, whole_or_zero,
}
use diplom_code.Act.{int_arg}

module _ ⦃rt : Runtime⦄ where
  abbrev chunks : Row → ℕ
  chunks r = r.audio_chunks

  -- The chunks of the participants, all chunks, those with speech, and the features of that kind.
  abbrev pub AddsUp : Collected → Type 0
  AddsUp c =
      (sum_values (λ r. r.audio_chunks) c.participants ≡ c.total_audio_chunks)
      × (lookup_or "audio" 0 c.kinds ≡ c.total_audio_chunks)
      × (c.speech_chunks ≤ c.total_audio_chunks)

  -- The same, when the feature at hand has been counted by its kind only.
  abbrev Due : ℕ → Collected → Type 0
  Due n c =
      (sum_values chunks c.participants ≡ c.total_audio_chunks)
      × (lookup_or "audio" 0 c.kinds ≡ c.total_audio_chunks + n)
      × (c.speech_chunks ≤ c.total_audio_chunks)

  sum-in_row :
      (pid : String) (f : Row → Row) (n : ℕ) (d : Dict String Row)
      → chunks (f (lookup_or pid empty_row d)) ≡ chunks (lookup_or pid empty_row d) + n
      → sum_values chunks (in_row pid f d) ≡ sum_values chunks d + n
  unfolding in_row
  sum-in_row pid f n d h =
      omega
        (arith, sum_values-insert chunks pid (f (lookup_or pid empty_row d)) empty_row d refl, h)

  abbrev is_audio : Value → ℕ
  is_audio (str k) = if k == "audio" then 1 else 0
  is_audio _ = 0

  on_kind-Due : (v : Value) (c : Collected) → AddsUp c → Due (is_audio v) (on_kind v c)
  unfolding on_kind bump
  on_kind-Due (str k) c (s, a, l) = (
    s,
    ground (
      arith,
      a,
      lookup_or-insert k "audio" (lookup_or k 0 c.kinds + 1) 0 c.kinds,
      string_eq.same_iff k "audio",
    ),
    l,
  )
  on_kind-Due null c (s, a, l) = (s, omega (arith, a), l)
  on_kind-Due (bool b) c (s, a, l) = (s, omega (arith, a), l)
  on_kind-Due (int n) c (s, a, l) = (s, omega (arith, a), l)
  on_kind-Due (float x) c (s, a, l) = (s, omega (arith, a), l)
  on_kind-Due (arr xs) c (s, a, l) = (s, omega (arith, a), l)
  on_kind-Due (obj fs) c (s, a, l) = (s, omega (arith, a), l)

  speech-le : (o : Option rt.F) (n m : ℕ) → n ≤ m → count_speech o n ≤ m + 1
  speech-le none n m h = omega (arith, h)
  speech-le (some x) n m h = ground (arith, h)

  on_audio-AddsUp :
      (pid : String) (content : Fields) (c : Collected) → Due 1 c → AddsUp (on_audio pid content c)
  unfolding on_audio
  on_audio-AddsUp pid content c (s, a, l) = (
    sum-in_row pid _ 1 c.participants refl ∙ ap (λ n. n + 1) s,
    a,
    speech-le _ c.speech_chunks c.total_audio_chunks l,
  )

  same_sum :
      (pid : String) (f : Row → Row) (c : Collected)
      → chunks (f (lookup_or pid empty_row c.participants))
        ≡ chunks (lookup_or pid empty_row c.participants)
      → sum_values chunks (in_row pid f c.participants) ≡ sum_values chunks c.participants
  same_sum pid f c h = omega (arith, sum-in_row pid f 0 c.participants (omega (arith, h)))

  -- No number, or a finite one.
  abbrev pub IsFinite : Option rt.F → Type 0
  IsFinite none = Unit {0}
  IsFinite (some x) = rt.is_finite x ≡ true

  -- There are no buckets, or the time is no number, or divided by the length of the buckets it is
  -- finite.
  abbrev pub HasBucket : rt.F → Option rt.F → Type 0
  HasBucket b none = Unit {0}
  HasBucket b (some x) = (rt.lt zero_f b ≡ false) ⊎ (rt.is_finite (rt.floor_div x b) ≡ true)

  -- The time of a feature, and the number of landmarks that it may tell of.
  abbrev pub FiniteFeature : rt.F → Fields → Type 0
  FiniteFeature b f =
      HasBucket b (number (get "ts" f))
      × IsFinite (
          number (get "landmarks_n" (dict_or_empty (get "payload" (dict_or_empty (get "data" f))))))

  bucket_at-IsOk : (b : rt.F) (o : Option rt.F) → HasBucket b o → IsOk (bucket_at b o)
  bucket_at-IsOk b none fine = tt
  bucket_at-IsOk b (some x) (inl off) = rw off tt
  bucket_at-IsOk b (some x) (inr fine) = Surely-if _ (rt.lt zero_f b) _ _ (rw fine tt) tt

  bucket_index-IsOk : (b : rt.F) (ts : Value) → HasBucket b (number ts) → IsOk (bucket_index b ts)
  unfolding bucket_index
  bucket_index-IsOk b ts fine = bucket_at-IsOk b (number ts) fine

  whole_or_zero-IsOk : (v : Value) → IsFinite (number v) → IsOk (whole_or_zero v)
  unfolding whole_or_zero int_arg
  whole_or_zero-IsOk null fine = tt
  whole_or_zero-IsOk (bool true) fine = tt
  whole_or_zero-IsOk (bool false) fine = tt
  whole_or_zero-IsOk (int n) fine = tt
  whole_or_zero-IsOk (float x) fine = rw fine tt
  whole_or_zero-IsOk (str s) fine = tt
  whole_or_zero-IsOk (arr xs) fine = tt
  whole_or_zero-IsOk (obj fs) fine = tt

  debug_event-IsOk :
      (payload : Fields) (ts : Value)
      → IsFinite (number (get "landmarks_n" payload))
      → IsOk (debug_event payload ts)
  unfolding debug_event
  debug_event-IsOk payload ts fine =
      Surely->>= _ (whole_or_zero (get "landmarks_n" payload)) _ (whole_or_zero-IsOk _ fine)
        (λ n _. tt)

  with_emotion-AddsUp :
      (b : rt.F) (pid : String) (ff : Fields) (ts : Value) (o : Option String) (c : Collected)
      → HasBucket b (number ts)
      → AddsUp c
      → Surely AddsUp (with_emotion b pid ff ts o c)
  unfolding note_emotion
  with_emotion-AddsUp b pid ff ts none c fine h = h
  with_emotion-AddsUp b pid ff ts (some dom) c fine (s, a, l) =
      Surely->>= AddsUp (bucket_index b ts) _ (bucket_index-IsOk b ts fine)
        (λ i _. (same_sum pid _ c refl ∙ s, a, l))

  on_face-AddsUp :
      (b : rt.F) (pid : String) (content : Fields) (ts : Value) (c : Collected)
      → HasBucket b (number ts)
      → AddsUp c
      → Surely AddsUp (on_face b pid content ts c)
  unfolding on_face
  on_face-AddsUp b pid content ts c fine h =
      Surely-if AddsUp (is_false (get "face_detected" (face_features_of content))) (ok c) _ h
        (with_emotion-AddsUp b pid (face_features_of content) ts _ c fine h)

  with_text-AddsUp :
      (b : rt.F) (pid : String) (final : Bool) (ts : Value) (o : Option String) (c : Collected)
      → HasBucket b (number ts)
      → AddsUp c
      → Surely AddsUp (with_text b pid final ts o c)
  unfolding note_text
  with_text-AddsUp b pid final ts none c fine h = h
  with_text-AddsUp b pid final ts (some t) c fine (s, a, l) =
      Surely->>= AddsUp (bucket_index b ts) _ (bucket_index-IsOk b ts fine)
        (λ i _. (same_sum pid _ c refl ∙ s, a, l))

  on_debug-AddsUp :
      (pid : String) (content : Fields) (ts : Value) (c : Collected)
      → IsFinite (number (get "landmarks_n" (dict_or_empty (get "payload" content))))
      → AddsUp c
      → Surely AddsUp (on_debug pid content ts c)
  unfolding on_debug count_debug
  on_debug-AddsUp pid content ts c fine h =
      let payload = dict_or_empty (get "payload" content) in
      let c' = count_debug pid payload c in
      Surely-if AddsUp (ltb (length (lookup_or pid [] c'.debug_events)) max_debug_events) _ (ok c')
        (Surely->>= AddsUp (debug_event payload ts) _ (debug_event-IsOk payload ts fine) (λ e _. h))
        h

  on_text-AddsUp :
      (b : rt.F) (pid : String) (content : Fields) (ts : Value) (c : Collected)
      → HasBucket b (number ts)
      → AddsUp c
      → Surely AddsUp (on_text b pid content ts c)
  unfolding on_text
  on_text-AddsUp b pid content ts c fine h = with_text-AddsUp b pid _ ts _ c fine h

  -- What was due is nothing where the kind is another.
  settled : (c : Collected) → Due 0 c → AddsUp c
  settled c (s, a, l) = (s, omega (arith, a), l)

  branch-AddsUp :
      (b : rt.F) (v : Value) (pid : String) (content : Fields) (ts : Value) (c : Collected)
      → HasBucket b (number ts)
      → IsFinite (number (get "landmarks_n" (dict_or_empty (get "payload" content))))
      → Due (is_audio v) c
      → Surely AddsUp (branch b v pid content ts c)
  branch-AddsUp b (str k) pid content ts c fine marks h = elim (Bool-cases (k == "audio")) [
    | inl audio ↦ rw audio (
        on_audio-AddsUp pid content c
          (subst (λ n. Due n c) (ap (λ (x : Bool). if x then 1 else 0) audio) h))
    | inr other ↦
        let h' = settled c (subst (λ n. Due n c) (ap (λ (x : Bool). if x then 1 else 0) other) h) in
        rw other (
          Surely-if AddsUp (k == "face") _ _ (on_face-AddsUp b pid content ts c fine h') (
            Surely-if AddsUp (k == "text") _ _ (on_text-AddsUp b pid content ts c fine h') (
              Surely-if AddsUp (k == "face_debug") _ _ (on_debug-AddsUp pid content ts c marks h')
                h')))
  ]
  branch-AddsUp b null pid content ts c fine marks h = settled c h
  branch-AddsUp b (bool x) pid content ts c fine marks h = settled c h
  branch-AddsUp b (int x) pid content ts c fine marks h = settled c h
  branch-AddsUp b (float x) pid content ts c fine marks h = settled c h
  branch-AddsUp b (arr x) pid content ts c fine marks h = settled c h
  branch-AddsUp b (obj x) pid content ts c fine marks h = settled c h

  collect_one-AddsUp :
      (b : rt.F) (f : Fields) (c : Collected)
      → FiniteFeature b f
      → AddsUp c
      → Surely AddsUp (collect_one b f c)
  unfolding collect_one
  collect_one-AddsUp b f c (fine, marks) h =
      branch-AddsUp b (kind_value f) _ _ _ (on_kind (kind_value f) c) fine marks
        (on_kind-Due (kind_value f) c h)

  collect-from :
      (b : rt.F) (fs : List Fields) (c : Collected)
      → All (FiniteFeature b) fs
      → AddsUp c
      → Surely AddsUp (collect b fs c)
  unfolding collect
  collect-from b [] c fine h = h
  collect-from b (f ∷ fs) c (fine, all_fine) h =
      Surely->>= AddsUp (collect_one b f c) (collect b fs) (collect_one-AddsUp b f c fine h)
        (λ c' h'. collect-from b fs c' all_fine h')

  -- Where the numbers of landmarks in the features are finite, if they are numbers at all, and so
  -- are their times divided by the length of the buckets, if there are buckets, the loop over the features raises no exception; then the chunks of the participants add
  -- up to the audio chunks, these are the features of the kind audio, and not more of them have
  -- speech.
  pub collect-AddsUp :
      (b : rt.F) (fs : List Fields)
      → All (FiniteFeature b) fs
      → Surely AddsUp (collect b fs nothing_collected)
  unfolding lookup_or lookup
  collect-AddsUp b fs fine = collect-from b fs nothing_collected fine (refl, refl, omega arith)
