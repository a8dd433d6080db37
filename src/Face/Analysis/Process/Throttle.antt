-- ===== src/Face/Analysis/Process/Throttle.antt =====
-- code/ai-gateway/modules/face/analysis.py: the time between two inferences for one participant.
use diplom_code.Base.{
  string_eq, nat_eq, int_eq, ◌≡◌, refl, String, Bool, true, false, Option, none, some, List, [],
  ◌∷◌, inl, inr, Bool-cases, if◌then◌else◌, ◌==◌, All, ◌∙◌, arith, ap,
}
use diplom_code.Base.Dict.{lookup_or-insert}
use diplom_code.Py.{Runtime, Fields, zero_f}
use diplom_code.Act.{World, count, send, sent_by, remember, observe, read_config}
use diplom_code.Act.Keeps.{Kept}
use diplom_code.Face.Region.{Box}
use diplom_code.Face.Params.{FaceRuntimeParams}
use diplom_code.Face.Analysis.Gate.{smoothed}
use diplom_code.Face.Analysis.Process.{
  Task, throttle, too_soon, last_inference, note_inference, analyze_frame,
}
use diplom_code.Face.Analysis.Process.Kept.{Allows, analyze_frame-Kept}

module _ ⦃rt : Runtime⦄ where
  open rt use {F}

  -- The last inference for this participant was at this time.
  abbrev LastAt : String → F → World → Type 0
  LastAt key x w = last_inference key w ≡ x

  last-sent_by :
      (key : String) (o : Option String) (msg : Fields) (w : World)
      → last_inference key (sent_by o msg w).1 ≡ last_inference key w
  unfolding last_inference
  last-sent_by key none msg (g, s) = refl
  last-sent_by key (some e) msg (g, s) = refl

  last_kept : (key : String) (x : F) → Kept (LastAt key x) (λ _. Unit {0})
  unfolding count send remember observe read_config last_inference
  last_kept key x = record {
    counting = λ k w h. h;
    sending = λ msg w m h. last-sent_by key (w.1.wire w.1.tried) msg w ∙ h;
    remembering = λ p w h. h;
    observing = λ name ms w h. h;
    calling = λ c w h. h;
  }

  all_allowed : Allows (λ _. Unit {0})
  all_allowed = record { emotion = λ s payload. tt; debug = λ s payload. tt }

  last-smoothed :
      (key k : String) (x : F) (fp : FaceRuntimeParams) (o : Option Box) (w : World)
      → LastAt key x w
      → LastAt key x (smoothed k fp o w).1
  unfolding smoothed last_inference
  last-smoothed key k x fp none w h = h
  last-smoothed key k x fp (some b) (g, s) h = h

  last-analyze_frame :
      (key : String) (t : Task) (image : String) (w : World)
      → last_inference key (analyze_frame t image w).1 ≡ last_inference key w
  last-analyze_frame key t image w =
      let x = last_inference key w in
      analyze_frame-Kept (LastAt key x) (λ _. Unit {0}) (last_kept key x) all_allowed
        (λ k fp o w1 h. last-smoothed key k x fp o w1 h) t image (λ _ _ _. tt) w refl

  last-note_inference :
      (key k : String) (now : F) (w : World)
      → last_inference key (note_inference k now w).1
        ≡ (if k == key then now else last_inference key w)
  unfolding note_inference last_inference
  last-note_inference key k now (g, s) = lookup_or-insert k key now zero_f s.last_inference_ts

  due-throttle :
      (key : String) (t : Task) (image : String) (w : World)
      → too_soon t.params.min_interval_sec t.inputs.now (last_inference t.key w) ≡ false
      → last_inference key (throttle t image w).1
        ≡ (if t.key == key then t.inputs.now else last_inference key w)
  unfolding throttle note_inference analyze_frame
  due-throttle key t image w due = rw due (
      last-analyze_frame key t image (note_inference t.key t.inputs.now w).1
      ∙ last-note_inference key t.key t.inputs.now w)

  -- A frame of another participant.
  other-throttle :
      (key : String) (t : Task) (image : String) (w : World)
      → (t.key == key) ≡ false
      → last_inference key (throttle t image w).1 ≡ last_inference key w
  unfolding throttle count last_inference
  other-throttle key t image w other =
      elim (Bool-cases (too_soon t.params.min_interval_sec t.inputs.now (last_inference t.key w))) [
        | inl soon ↦ rw soon refl
        | inr due ↦ due-throttle key t image w due ∙ rw other refl
      ]

  -- The frames one after the other.
  abbrev pub run : List (Task × String) → World → World
  run [] w = w
  run ((t, image) ∷ ts) w = run ts (throttle t image w).1

  abbrev pub Others : String → List (Task × String) → Type 0
  Others key = All (λ p. (p.0.key == key) ≡ false)

  last-run :
      (key : String) (ts : List (Task × String)) (w : World)
      → Others key ts
      → last_inference key (run ts w) ≡ last_inference key w
  last-run key [] w h = refl
  last-run key ((t, image) ∷ ts) w (h, hs) =
      last-run key ts (throttle t image w).1 hs ∙ other-throttle key t image w h

  own_key : (b : Bool) (x y : F) → b ≡ true → (if b then x else y) ≡ x
  own_key b x y h = rw h refl

  refl_eq : (k : String) → (k == k) ≡ true
  refl_eq k = ground (arith, string_eq.same_iff k k)

  soon-throttle :
      (t : Task) (image : String) (w : World)
      → too_soon t.params.min_interval_sec t.inputs.now (last_inference t.key w) ≡ true
      → throttle t image w ≡ count "face_throttled" w
  unfolding throttle
  soon-throttle t image w soon = rw soon refl

  -- After a frame that was not throttled, and any frames of other participants, a frame of the
  -- same participant that comes less than its interval later is dropped: it leads to nothing but
  -- the count of throttled frames.
  pub throttle-throttle :
      (t t' : Task) (image image' : String) (ts : List (Task × String)) (w : World)
      → too_soon t.params.min_interval_sec t.inputs.now (last_inference t.key w) ≡ false
      → Others t.key ts
      → (t'.key ≡ t.key)
      → too_soon t'.params.min_interval_sec t'.inputs.now t.inputs.now ≡ true
      → let w' = run ts (throttle t image w).1 in throttle t' image' w' ≡ count "face_throttled" w'
  throttle-throttle t t' image image' ts w due others same soon =
      let w' = run ts (throttle t image w).1 in
      let last : last_inference t'.key w' ≡ t.inputs.now =
        ap (λ k. last_inference k w') same
        ∙ last-run t.key ts (throttle t image w).1 others
        ∙ due-throttle t.key t image w due
        ∙ own_key (t.key == t.key) t.inputs.now _ (refl_eq t.key) in
      soon-throttle t' image' w' (rw last soon)
