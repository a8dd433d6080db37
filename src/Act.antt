-- ===== src/Act.antt =====
-- The state that the plugins of the gateway share, and an action on it: it may raise an exception,
-- and what it wrote before stays written. (code/ai-gateway: the metrics of observability.py, the
-- store of feature_store.py, the circuits of adapters/speech_service.py, the attributes of the plugin
-- objects, and what went out on the websocket.)
pub mod Keeps
pub mod Laws
pub mod Sent
use diplom_code.Base.{
  ◌≡◌, refl, ℕ, zero, suc, ◌+◌, ◌-◌, ◌≤◌, ◌<◌, ℤ, pos, negsuc, String, Bool, true, false, not, ◌&&◌,
  ◌||◌, Option, none, some, List, [], ◌∷◌, ◌++◌, ◌==◌, string_eq, nat_eq, int_eq, ltb, leb, eqb,
  if◌then◌else◌, arith, ap, sym, ◌∙◌, subst, inl, inr, ◌⊎◌, Bool-cases, Option-cases, length, map,
  All, filter, is_nil, is_blank, is_empty, strip, ◌≢◌, ◌↔◌, ◌+ℤ◌, ◌-ℤ◌, ◌*ℤ◌, ◌≤ℤ◌, ◌<ℤ◌, ltb_ℤ,
  leb_ℤ, eqb_ℤ, min_ℤ, max_ℤ, pos_part, neg_part, sub_ℕ, ◌*◌, ◌/◌, ◌^◌, ◌<>◌, last_n, take, drop,
  any, all, get_elem?, sort_by, length-append, last_n-append, take_text, length_text,
}
use diplom_code.Base.Dict.{Dict, keys, lookup, lookup_or, insert, lookup-insert, lookup_or-insert}
use diplom_code.Store.{Store, Push, push}
use diplom_code.Metrics.{Counters, Rings, incr, observe_module_latency}
use diplom_code.Speech.{Circuit}
use diplom_code.Config.{Disk, GatewayConfig, get_gateway_config}
use diplom_code.Dispatch.{Gateway}
use diplom_code.Sessions.{is_module_enabled_for_session}
use diplom_code.Face.Region.{Box}
use diplom_code.Py.{
  Runtime, IsDouble, null, bool, int, float, str, arr, obj, nil, cons, end, field, Value, Items,
  Fields, get, get_or, has, fields, items, number, truthy, or_else, text_of, is_filled, is_str,
  is_dict, is_list, is_bool, is_null, dict_or_empty, zero_f, one_f, min_f, max_f, set_field, update,
  opt_str, opt_float, opt_int, Result, ok, raise,
}

module _ ⦃rt : Runtime⦄ where
  open rt use {F}

  pub record Shared : Type 0 where
    pub store : Store
    pub rings : Rings
    pub circuit : Circuit
    -- the messages sent, oldest first
    pub sent : List Fields
    -- how many sends were tried, and the exception, if any, that each of them raises
    pub tried : ℕ
    pub wire : ℕ → Option String
    -- `_last_chunk_mono_ms`, `_iat_ms` and `_rms_hist` of the audio plugin
    pub last_chunk_ms : Dict String F
    pub iat_ms : Dict String (List F)
    pub rms_hist : Dict String (List F)
    -- `_last_inference_ts` and `_last_debug_bbox` of the face plugin
    pub last_inference_ts : Dict String F
    pub last_debug_bbox : Dict String Box
    -- `_REPORT_QUALITY_PREV` of report_loop.py
    pub quality_prev : Option Counters

  abbrev pub World : Type 0
  World = Gateway × Shared

  abbrev pub Act : Type 0 → Type 0
  Act A = World → Result A × World

  abbrev pub done : {A : Type 0} → A → Act A
  done a w = (ok a, w)

  abbrev pub fail : {A : Type 0} → String → Act A
  fail e w = (raise e, w)

  abbrev pub next : {A B : Type 0} → Result A × World → (A → Act B) → Result B × World
  next (ok a, w) f = f a w
  next (raise e, w) f = (raise e, w)

  infixl 5 ◌>>=◌ ◌>>◌
  abbrev pub ◌>>=◌ : {A B : Type 0} → Act A → (A → Act B) → Act B
  ◌>>=◌ m f w = next (m w) f

  abbrev pub ◌>>◌ : {B : Type 0} → Act (Unit {0}) → Act B → Act B
  m >> k = m >>= λ _. k

  abbrev pub lift : {A : Type 0} → Result A → Act A
  lift r w = (r, w)

  abbrev pub modify : (Shared → Shared) → Act (Unit {0})
  modify f (g, s) = (ok tt, (g, f s))

  -- `incr(metric)`
  unfoldable pub count : String → Act (Unit {0})
  count metric (g, s) = (ok tt, (record g { counters = incr metric (pos 1) g.counters }, s))

  unfoldable pub count_all : List String → Act (Unit {0})
  count_all [] = done tt
  count_all (m ∷ ms) = count m >> count_all ms

  abbrev pub sent_by : Option String → Fields → World → Result (Unit {0}) × World
  sent_by none msg (g, s) =
      (ok tt, (g, record s { sent = s.sent ++ msg ∷ []; tried = s.tried + 1 }))
  sent_by (some e) msg (g, s) = (raise e, (g, record s { tried = s.tried + 1 }))

  -- `await ws.send(json.dumps(msg))`
  unfoldable pub send : Fields → Act (Unit {0})
  send msg w = sent_by (w.1.wire w.1.tried) msg w

  -- `get_feature_store().push(...)`
  unfoldable pub remember : Push → Act (Unit {0})
  remember p = modify (λ s. record s { store = push p s.store })

  -- `observe_module_latency(name, ms)`
  unfoldable pub observe : String → F → Act (Unit {0})
  observe name ms = modify (λ s. record s { rings = observe_module_latency name ms s.rings })

  -- `get_gateway_config()`
  unfoldable pub read_config : Disk → Act GatewayConfig
  read_config d (g, s) =
      let (r, c) = get_gateway_config d g.config in (r, (record g { config = c }, s))

  -- The value of a counter.
  unfoldable pub counted : String → World → ℤ
  counted metric w = lookup_or metric (pos 0) w.0.counters

  -- `int(v)` of a JSON value, `float(v)` of a JSON value
  unfoldable pub int_arg : Value → Result ℤ
  int_arg (int n) = ok n
  int_arg (bool b) = ok (pos (if b then 1 else 0))
  int_arg (float x) =
      if rt.is_finite x
      then ok (rt.trunc x)
      else raise (if rt.is_nan x then "ValueError" else "OverflowError")
  int_arg (str s) = elim (rt.parse_int (strip s)) [ none ↦ raise "ValueError" | some n ↦ ok n ]
  int_arg _ = raise "TypeError"

  unfoldable pub float_arg : Value → Result F
  float_arg (str s) = elim (rt.parse_float (strip s)) [ none ↦ raise "ValueError" | some x ↦ ok x ]
  float_arg v = elim (number v) [ none ↦ raise "TypeError" | some x ↦ ok x ]

  abbrev pub rescue : {A : Type 0} → Result A × World → (String → Act A) → Result A × World
  rescue (ok a, w) h = (ok a, w)
  rescue (raise e, w) h = h e w

  -- `try: m` with `except Exception as e: h`
  abbrev pub catch : {A : Type 0} → Act A → (String → Act A) → Act A
  catch m h w = rescue (m w) h

  -- `is_module_enabled_for_session(int(session_id), name)`
  unfoldable pub session_wants : String → Fields → Act Bool
  session_wants name msg (g, s) =
      next (lift (int_arg (get "session_id" msg)) (g, s))
        (λ sid. done (is_module_enabled_for_session (some sid) name true g.sessions))
