-- ===== src/Plugins/Sends.antt =====
-- code/ai-gateway: the messages that leave the gateway for one that comes in.
use diplom_code.Base.{
  string_eq, int_eq, nat_eq, ◌≡◌, refl, sym, subst, String, Bool, true, false, ◌||◌, Option, none,
  some, List, [], ◌∷◌, inl, inr, ◌⊎◌, Bool-cases, if◌then◌else◌, is_nil, is_blank, All, sort_by,
}
use diplom_code.Base.Dict.{lookup}
use diplom_code.Py.{Runtime, Fields, get, Result, ok, raise, is_null}
use diplom_code.Config.{ModuleCfg, Disk, State, get_gateway_config, maybe_reload_gateway_config}
use diplom_code.Act.Keeps.{Kept, next-Kept, next-Kept_of}
use diplom_code.Act.Sent.{AllSent, read-AllSent}
use diplom_code.Hybrid.Accepted.{Accepted}
use diplom_code.Plugins.{
  iter_plugins, gateway_step, process_ping, ping_plugin, face_plugin, audio_plugin,
}
use diplom_code.Dispatch.{
  Plugin, call_plugins, dispatch, dispatch_after, then_rest, polled, noted, poll_config,
  handle_message, Gateway,
}
use diplom_code.Face.Region.{Box}
use diplom_code.Face.Params.{FaceRuntimeParams, from_dict}
use diplom_code.Face.Analysis.Gate.{FrameInputs, smoothed}
use diplom_code.Face.Analysis.Process.{
  Task, throttle, too_soon, last_inference, note_inference, with_image, with_config, process_frame,
  task_of,
}
use diplom_code.Face.Analysis.Process.Kept.{Allows, analyze_frame-Kept}
use diplom_code.Face.Analysis.Process.Sends.{throttle-Accepted}
use diplom_code.Audio.Pipeline.{AudioInputs, process_audio, arrive}
use diplom_code.Audio.Pipeline.Kept.{Now, KeptByPlugin, process_audio-Kept}
use diplom_code.Audio.Pipeline.Sends.{process_audio-Accepted}
use diplom_code.Act.{
  sent_by, send, remember, observe, World, Shared, count, read_config, Act, session_wants, done,
  int_arg,
}
use diplom_code.Plugins.Named.{NamedOnDisk, NamedNow, get-Got, poll-NamedNow}

module _ ⦃rt : Runtime⦄ where
  -- What holds of the state between two messages.
  abbrev pub Good : World → Type 0
  Good w = AllSent Accepted w × NamedNow w.0.config

  or_default :
      (b : Bool) (default model : String)
      → is_blank default ≡ false
      → (b ≡ true) ⊎ (is_blank model ≡ false)
      → is_blank (if b then default else model) ≡ false
  or_default true default model h c = h
  or_default false default model h (inl p) = cc
  or_default false default model h (inr named) = named

  read-config :
      (d : Disk) (w : World) → (read_config d w).1.0.config ≡ (get_gateway_config d w.0.config).1
  unfolding read_config
  read-config d (g, s) = refl

  configured_name :
      (d : Disk) (w : World) (name : String) (m : ModuleCfg)
      → NamedOnDisk d
      → NamedNow w.0.config
      → Now d w name m
      → (is_nil m.model ≡ true) ⊎ (is_blank m.model ≡ false)
  unfolding read_config
  configured_name d (g, s) name m disk now (cfg, e, l) =
      (get-Got d g.config disk now).0 cfg e name m l

  sent_by-config : (o : Option String) (msg : Fields) (w : World) → (sent_by o msg w).1.0 ≡ w.0
  sent_by-config none msg (g, s) = refl
  sent_by-config (some e) msg (g, s) = refl

  named_kept : Kept (λ w. NamedNow w.0.config) (λ _. Unit {0})
  unfolding count send remember observe
  named_kept = record {
    counting = λ k w h. h;
    sending = λ msg w m h.
        subst (λ (g : Gateway). NamedNow g.config) (sym (sent_by-config (w.1.wire w.1.tried) msg w))
          h;
    remembering = λ p w h. h;
    observing = λ name ms w h. h;
    calling = λ c w h. h;
  }

  named_own : KeptByPlugin (λ w. NamedNow w.0.config)
  unfolding arrive
  named_own = record { arriving = λ key now w h. h; noting = λ key x w h. h }

  read-NamedNow :
      (d : Disk) (w : World)
      → NamedOnDisk d
      → NamedNow w.0.config
      → NamedNow (read_config d w).1.0.config
  read-NamedNow d w disk now =
      subst NamedNow (sym (read-config d w)) (get-Got d w.0.config disk now).1

  audio-Good :
      (d : Disk) (msg : Fields) (i : AudioInputs) (w : World)
      → NamedOnDisk d
      → is_blank i.trace_id ≡ false
      → Good w
      → Good (process_audio d msg i w).1
  unfolding is_blank
  audio-Good d msg i w disk traced (sent, now) = (
    process_audio-Accepted d msg i w
        (λ m n.
          or_default (is_nil m.model) "audio-features-v2" m.model refl
            (configured_name d w "audio" m disk now n))
        (λ m n.
          or_default (is_nil m.model) "stub-v1" m.model refl
            (configured_name d w "text" m disk now n))
        traced sent,
    process_audio-Kept (λ w'. NamedNow w'.0.config) (λ _. Unit {0}) named_kept named_own d msg i w
        (read-NamedNow d w disk now) (λ _ _ _. tt) (λ _ _ _. tt) now,
  )

  if-Good :
      (b : Bool) (x y : Act (Unit {0})) (w : World)
      → Good (x w).1
      → Good (y w).1
      → Good ((if b then x else y) w).1
  if-Good true x y w h k = h
  if-Good false x y w h k = k

  all_allowed : Allows (λ _. Unit {0})
  all_allowed = record { emotion = λ s payload. tt; debug = λ s payload. tt }

  smoothed-config :
      (key : String) (fp : FaceRuntimeParams) (o : Option Box) (w : World)
      → (smoothed key fp o w).1.0 ≡ w.0
  unfolding smoothed
  smoothed-config key fp none w = refl
  smoothed-config key fp (some b) (g, s) = refl

  throttle-NamedNow :
      (t : Task) (image : String) (w : World)
      → NamedNow w.0.config
      → NamedNow (throttle t image w).1.0.config
  unfolding throttle count note_inference
  throttle-NamedNow t image w now =
      elim (Bool-cases (too_soon t.params.min_interval_sec t.inputs.now (last_inference t.key w))) [
        | inl soon ↦ rw soon now
        | inr due ↦ rw due (
            analyze_frame-Kept (λ w'. NamedNow w'.0.config) (λ _. Unit {0}) named_kept all_allowed
              (λ key fp o w1 h.
                subst (λ (g : Gateway). NamedNow g.config) (sym (smoothed-config key fp o w1)) h)
              t image (λ _ _ _. tt) (note_inference t.key t.inputs.now w).1 now)
      ]

  throttle-Good :
      (t : Task) (image : String) (w : World)
      → is_blank t.version ≡ false
      → is_blank t.subject.trace_id ≡ false
      → Good w
      → Good (throttle t image w).1
  throttle-Good t image w named traced (sent, now) =
      (throttle-Accepted t image w named traced sent, throttle-NamedNow t image w now)

  session_wants-Good :
      (name : String) (msg : Fields) (w : World) → Good w → Good (session_wants name msg w).1
  unfolding session_wants
  session_wants-Good name msg (g, s) h =
      next-Kept Good (int_arg (get "session_id" msg), (g, s)) _ h (λ _ w1 h1. h1)

  with_image-Good :
      (msg : Fields) (i : FrameInputs) (m : ModuleCfg) (fp : FaceRuntimeParams) (o : Option String)
      (w : World)
      → (is_nil m.model ≡ true) ⊎ (is_blank m.model ≡ false)
      → is_blank i.trace_id ≡ false
      → Good w
      → Good (with_image msg i m fp o w).1
  unfolding with_image task_of is_blank
  with_image-Good msg i m fp none w named traced h = h
  with_image-Good msg i m fp (some image) w named traced h =
      if-Good (is_null (get "session_id" msg) || is_null (get "participant_id" msg)) (done tt) _ w h
        (next-Kept {B = Unit {0}} Good (session_wants "face" msg w) _
          (session_wants-Good "face" msg w h)
          (λ allowed w1 h1.
            if-Good allowed (throttle (task_of msg i m fp) image) (done tt) w1
              (throttle-Good (task_of msg i m fp) image w1
                (or_default (is_nil m.model) "emotion-v1" m.model refl named) traced h1)
              h1))

  with_config-Good :
      (msg : Fields) (i : FrameInputs) (o : Option ModuleCfg) (w : World)
      → ((m : ModuleCfg) → o ≡ some m → (is_nil m.model ≡ true) ⊎ (is_blank m.model ≡ false))
      → is_blank i.trace_id ≡ false
      → Good w
      → Good (with_config msg i o w).1
  unfolding with_config
  with_config-Good msg i none w named traced h = h
  with_config-Good msg i (some m) w named traced h =
      if-Good m.enabled _ (done tt) w
        (next-Kept {B = Unit {0}} Good (from_dict m.params, w) _ h
          (λ fp w1 h1. with_image-Good msg i m fp _ w1 (named m refl) traced h1))
        h

  frame-Good :
      (d : Disk) (msg : Fields) (i : FrameInputs) (w : World)
      → NamedOnDisk d
      → is_blank i.trace_id ≡ false
      → Good w
      → Good (process_frame d msg i w).1
  unfolding process_frame
  frame-Good d msg i w disk traced (sent, now) =
      next-Kept_of {B = Unit {0}} Good (read_config d w)
        (λ cfg. with_config msg i (lookup "face" cfg))
        (read-AllSent Accepted d w sent, read-NamedNow d w disk now)
        (λ cfg w1 e h1.
          with_config-Good msg i (lookup "face" cfg) w1
            (λ m l. configured_name d w "face" m disk now (cfg, e, l)) traced h1)

  polled-NamedNow :
      (now : rt.F) (g : Gateway) (r : Result Bool × State)
      → NamedNow r.1
      → NamedNow (polled now g r).1.config
  polled-NamedNow now g (ok b, c) h = h
  polled-NamedNow now g (raise e, c) h = h

  if-NamedNow :
      (b : Bool) (x y : Result (Unit {0}) × Gateway)
      → NamedNow x.1.config
      → NamedNow y.1.config
      → NamedNow (if b then x else y).1.config
  if-NamedNow true x y h k = h
  if-NamedNow false x y h k = k

  choice-Good :
      (b : Bool) (x y : Result (Unit {0}) × World)
      → Good x.1
      → Good y.1
      → Good (if b then x else y).1
  choice-Good true x y h k = h
  choice-Good false x y h k = k

  ping-Good : (msg : Fields) (w : World) → Good w → Good (process_ping msg w).1
  unfolding process_ping count
  ping-Good msg w h = h

  poll_config-NamedNow :
      (poll now : rt.F) (d : Disk) (g : Gateway)
      → NamedOnDisk d
      → NamedNow g.config
      → NamedNow (poll_config poll now d g).1.config
  unfolding poll_config
  poll_config-NamedNow poll now d g disk h =
      if-NamedNow _ (polled now g (maybe_reload_gateway_config d g.config)) (ok tt, g)
        (polled-NamedNow now g _ (poll-NamedNow d g.config disk h)) h

  -- A plugin that keeps the state good.
  abbrev KeepsGood : Fields → Plugin Fields World → Type 0
  KeepsGood msg p = (w : World) → Good w → Good (p.process msg w).1

  then_rest-Good :
      (r : Result (Unit {0}) × World) (rest : World → Result (Unit {0}) × World)
      → Good r.1
      → ((w : World) → Good w → Good (rest w).1)
      → Good (then_rest r rest).1
  then_rest-Good (ok tt, w) rest h k = k w h
  then_rest-Good (raise e, w) rest h k = h

  call_plugins-Good :
      (ps : List (Plugin Fields World)) (msg : Fields) (w : World)
      → All (KeepsGood msg) ps
      → Good w
      → Good (call_plugins ps msg w).1
  unfolding call_plugins
  call_plugins-Good [] msg w ks h = h
  call_plugins-Good (p ∷ ps) msg w (k, ks) h =
      choice-Good (p.can_handle msg) (then_rest (p.process msg w) (call_plugins ps msg)) _
        (then_rest-Good (p.process msg w) (call_plugins ps msg) (k w h)
          (λ w1 h1. call_plugins-Good ps msg w1 ks h1))
        (call_plugins-Good ps msg w ks h)

  dispatch-Good :
      (d : Disk) (frame : FrameInputs) (audio : AudioInputs) (msg : Fields) (w : World)
      → NamedOnDisk d
      → is_blank frame.trace_id ≡ false
      → is_blank audio.trace_id ≡ false
      → Good w
      → Good (dispatch (iter_plugins d frame audio) msg w).1
  unfolding dispatch iter_plugins sort_by
  dispatch-Good d frame audio msg w disk tf ta h =
      call_plugins-Good (ping_plugin ∷ face_plugin d frame ∷ audio_plugin d audio ∷ []) msg w
        (
          (λ w1 h1. ping-Good msg w1 h1),
          (
            (λ w1 h1. frame-Good d msg frame w1 disk tf h1),
            ((λ w1 h1. audio-Good d msg audio w1 disk ta h1), tt),
          ),
        )
        h

  dispatch_after-Good :
      (d : Disk) (frame : FrameInputs) (audio : AudioInputs) (msg : Fields) (s : Shared)
      (r : Result (Unit {0}) × Gateway)
      → NamedOnDisk d
      → is_blank frame.trace_id ≡ false
      → is_blank audio.trace_id ≡ false
      → Good (r.1, s)
      → Good (dispatch_after (iter_plugins d frame audio) msg s r).1
  dispatch_after-Good d frame audio msg s (ok tt, g) disk tf ta h =
      dispatch-Good d frame audio msg (g, s) disk tf ta h
  dispatch_after-Good d frame audio msg s (raise e, g) disk tf ta h = h

  -- Whatever message comes in and whatever the libraries and services reply, every message that the
  -- gateway sends is accepted by the validator for its type, and the configuration in place stays
  -- one whose model names are empty or not blank; where this holds before, the same is true of the
  -- configurations on the disk, and the trace ids are not blank.
  pub gateway_step-Good :
      (poll now : rt.F) (d : Disk) (frame : FrameInputs) (audio : AudioInputs) (msg : Fields)
      (w : World)
      → NamedOnDisk d
      → is_blank frame.trace_id ≡ false
      → is_blank audio.trace_id ≡ false
      → Good w
      → Good (gateway_step poll now d frame audio msg w).1
  unfolding gateway_step handle_message
  gateway_step-Good poll now d frame audio msg (g, s) disk tf ta (sent, named) =
      dispatch_after-Good d frame audio msg s (poll_config poll now d (noted msg g)) disk tf ta
        (sent, poll_config-NamedNow poll now d (noted msg g) disk named)
