-- ===== src/Report/Quality/Laws.antt =====
-- What the `data_quality` part of a report says of the counters.
use diplom_code.Base.{
  ◌≡◌, refl, pos, String, Bool, true, false, not, ◌||◌, Option, none, List, [], ◌∷◌, ◌++◌,
  string_eq, nat_eq, int_eq, if◌then◌else◌, arith, ap, ◌∙◌, is_empty, ltb_ℤ,
}
use diplom_code.Base.Dict.{lookup_or}
use diplom_code.Py.{Runtime, bool, arr, end, field, Value, Fields, get, dict_or_empty, set_field}
use diplom_code.Metrics.{Counters}
use diplom_code.Report.Quality.{
  sorted_set, delta, degraded, data_quality, previous, augment_report_data_quality, texts,
}

module _ ⦃rt : Runtime⦄ where
  -- A counter is larger now than it was.
  abbrev pub grew : Counters → Counters → String → Bool
  grew curr prev key = ltb_ℤ (lookup_or key (pos 0) prev) (lookup_or key (pos 0) curr)

  positive-delta :
      (curr prev : Counters) (key : String)
      → ltb_ℤ (pos 0) (delta curr prev key) ≡ grew curr prev key
  unfolding delta
  positive-delta curr prev key = ground arith

  -- The sources with an error, by name.
  abbrev pub sources : Bool → Bool → List String
  sources text face =
      (if face then "face_inference" ∷ [] else []) ++ (if text then "text_asr" ∷ [] else [])

  abbrev named : Bool → Bool → Bool → List String
  named text speech face =
      let rest : List String = if face then "face_inference" ∷ [] else [] in
      let more : List String = if speech then "text_asr" ∷ rest else rest in
      if text then "text_asr" ∷ more else more

  sorted_set-named :
      (text speech face : Bool)
      → sorted_set (named text speech face) ≡ sources (text || speech) face
  unfolding sorted_set
  sorted_set-named true true true = refl
  sorted_set-named true true false = refl
  sorted_set-named true false true = refl
  sorted_set-named true false false = refl
  sorted_set-named false true true = refl
  sorted_set-named false true false = refl
  sorted_set-named false false true = refl
  sorted_set-named false false false = refl

  is_empty-named :
      (text speech face : Bool) → is_empty (named text speech face) ≡ not ((text || speech) || face)
  is_empty-named text speech face = ground arith

  degraded-named :
      (curr prev : Counters)
      → degraded (delta curr prev)
        ≡ named
            (grew curr prev "text_analysis_errors")
            (grew curr prev "speech_service_circuit_open")
            (grew curr prev "face_inference_errors")
  unfolding degraded
  degraded-named curr prev = rw (
    positive-delta curr prev "text_analysis_errors",
    positive-delta curr prev "speech_service_circuit_open",
    positive-delta curr prev "face_inference_errors",
  )

  get-set_field : (k : String) (v : Value) (fs : Fields) → get k (set_field k v fs) ≡ v
  get-set_field k v end = ground (arith, string_eq.same_iff k k)
  get-set_field k v (field j w fs) =
      ground (arith, string_eq.same_iff k k, string_eq.same_iff j k, get-set_field k v fs)

  -- A report is marked complete exactly when no error counter of speech recognition, of its
  -- circuit or of the face inference has grown since the last report, and it names speech
  -- recognition and face inference as degraded exactly when one of their counters has; at the
  -- first report nothing has grown.
  pub quality_tells :
      (body : Fields) (curr : Counters) (last : Option Counters)
      → let quality =
          dict_or_empty (get "data_quality" (augment_report_data_quality body curr last)) in
        let prev = previous curr last in
        let text =
          grew curr prev "text_analysis_errors" || grew curr prev "speech_service_circuit_open" in
        let face = grew curr prev "face_inference_errors" in
        (get "complete" quality ≡ bool (not (text || face)))
        × (get "degraded_sources" quality ≡ arr (texts (sources text face)))
  unfolding augment_report_data_quality data_quality
  quality_tells body curr last =
      let prev = previous curr last in
      let a = grew curr prev "text_analysis_errors" in
      let b = grew curr prev "speech_service_circuit_open" in
      let c = grew curr prev "face_inference_errors" in
      let named_so = degraded-named curr prev in
      rw get-set_field (
        ap bool (ap is_empty named_so ∙ is_empty-named a b c),
        ap (λ xs. arr (texts xs)) (ap sorted_set named_so ∙ sorted_set-named a b c),
      )

  -- On the first report every count of the window is zero.
  first_report : (curr : Counters) (key : String) → delta curr (previous curr none) key ≡ pos 0
  unfolding delta
  first_report curr key = ground arith
