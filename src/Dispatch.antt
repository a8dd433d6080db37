-- ===== src/Dispatch.antt =====
-- code/ai-gateway/handlers.py: what happens to a message from the websocket. The plugins are
-- arguments, with a state of their own.
pub mod Order
use diplom_code.Base.{
  ◌≡◌, refl, ℕ, zero, suc, ◌+◌, ◌-◌, ◌≤◌, ◌<◌, ℤ, pos, negsuc, String, Bool, true, false, not, ◌&&◌,
  ◌||◌, Option, none, some, List, [], ◌∷◌, ◌++◌, ◌==◌, string_eq, nat_eq, int_eq, ltb, leb, eqb,
  if◌then◌else◌, arith, ap, sym, ◌∙◌, subst, inl, inr, ◌⊎◌, Bool-cases, Option-cases, length, map,
  All, filter, is_nil, is_blank, is_empty, strip, ◌≢◌, ◌↔◌, ◌+ℤ◌, ◌-ℤ◌, ◌*ℤ◌, ◌≤ℤ◌, ◌<ℤ◌, ltb_ℤ,
  leb_ℤ, eqb_ℤ, min_ℤ, max_ℤ, pos_part, neg_part, sub_ℕ, ◌*◌, ◌/◌, ◌^◌, ◌<>◌, last_n, take, drop,
  any, all, get_elem?, sort_by, length-append, last_n-append, take_text, length_text,
}
use diplom_code.Base.Dict.{Dict, keys, lookup, lookup_or, insert, lookup-insert, lookup_or-insert}
use diplom_code.Sessions.{Sessions, set_session_modules}
use diplom_code.Metrics.{Counters, incr}
use diplom_code.Config.{Disk, State, maybe_reload_gateway_config}
use diplom_code.Py.{
  Runtime, IsDouble, null, bool, int, float, str, arr, obj, nil, cons, end, field, Value, Items,
  Fields, get, get_or, has, fields, items, number, truthy, or_else, text_of, is_filled, is_str,
  is_dict, is_list, is_bool, is_null, dict_or_empty, zero_f, one_f, min_f, max_f, set_field, update,
  opt_str, opt_float, opt_int, Result, ok, raise, ◌>>=◌, ◌>>◌, require,
}

-- A plugin with the state `S` that it works on; `priority` is none where it has no such attribute.
pub record Plugin (M S : Type 0) : Type 0 where
  pub priority : Option ℤ
  pub can_handle : M → Bool
  pub process : M → S → Result (Unit {0}) × S

abbrev pub then_rest :
    {S : Type 0} → Result (Unit {0}) × S → (S → Result (Unit {0}) × S) → Result (Unit {0}) × S
then_rest (ok u, s) rest = rest s
then_rest (raise e, s) rest = (raise e, s)

module _ {M S : Type 0} where
  -- `_plugin_sort_key`
  abbrev pub plugin_sort_key : Plugin M S → ℤ
  plugin_sort_key p = elim p.priority [ none ↦ pos 500 | some n ↦ n ]

  abbrev pub not_after : Plugin M S → Plugin M S → Bool
  not_after p q = leb_ℤ (plugin_sort_key p) (plugin_sort_key q)

  -- The loop over the plugins, which an exception ends.
  unfoldable pub call_plugins : List (Plugin M S) → M → S → Result (Unit {0}) × S
  call_plugins [] msg s = (ok tt, s)
  call_plugins (p ∷ ps) msg s =
      if p.can_handle msg
      then then_rest (p.process msg s) (call_plugins ps msg)
      else call_plugins ps msg s

  unfoldable pub dispatch : List (Plugin M S) → M → S → Result (Unit {0}) × S
  dispatch plugins msg s = call_plugins (sort_by not_after plugins) msg s

module _ ⦃rt : Runtime⦄ where
  open rt use {F, lt, le, sub}

  -- The state that `handle_message` itself works on: `_session_modules`, the counters,
  -- `_LAST_CFG_POLL_MONO` and the configuration. (`_logged_first_ws_audio` is only for the log.)
  pub record Gateway : Type 0 where
    pub sessions : Sessions
    pub counters : Counters
    pub last_poll : F
    pub config : State

  abbrev is_text_of : String → Value → Bool
  is_text_of t (str s) = s == t
  is_text_of t _ = false

  abbrev has_type : String → Fields → Bool
  has_type t msg = is_text_of t (get "type" msg)

  -- `isinstance(sid, int)`; a bool is one.
  abbrev pub int_value : Value → Option ℤ
  int_value (int n) = some n
  int_value (bool b) = some (pos (if b then 1 else 0))
  int_value _ = none

  abbrev pub dict_value : Value → Option Fields
  dict_value (obj fs) = some fs
  dict_value _ = none

  abbrev set_modules : Option ℤ → Option Fields → Sessions → Sessions
  set_modules (some sid) (some modules) s = set_session_modules sid modules s
  set_modules _ _ s = s

  -- The part for `join`.
  unfoldable pub note_join : Fields → Sessions → Sessions
  note_join msg s =
      if has_type "join" msg
      then set_modules (int_value (get "session_id" msg))
          (dict_value (get "analysis_modules" (dict_or_empty (get "payload" msg)))) s
      else s

  unfoldable pub note_audio : Fields → Counters → Counters
  note_audio msg c = if has_type "audio" msg then incr "inbound_ws_audio" (pos 1) c else c

  abbrev pub polled : F → Gateway → Result Bool × State → Result (Unit {0}) × Gateway
  polled now g (ok reloaded, c) = (ok tt, record g { last_poll = now; config = c })
  polled now g (raise e, c) = (raise e, record g { last_poll = now; config = c })

  -- The poll of the configuration: `poll` seconds, if positive, after the last one.
  unfoldable pub poll_config : F → F → Disk → Gateway → Result (Unit {0}) × Gateway
  poll_config poll now d g =
      if lt zero_f poll && le poll (sub now g.last_poll)
      then polled now g (maybe_reload_gateway_config d g.config)
      else (ok tt, g)

  abbrev pub noted : Fields → Gateway → Gateway
  noted msg g = record g {
    sessions = note_join msg g.sessions;
    counters = note_audio msg g.counters;
  }

  abbrev pub dispatch_after :
      {S : Type 0}
      → List (Plugin Fields (Gateway × S))
      → Fields
      → S
      → Result (Unit {0}) × Gateway
      → Result (Unit {0}) × (Gateway × S)
  dispatch_after plugins msg s (raise e, g) = (raise e, (g, s))
  dispatch_after plugins msg s (ok u, g) = dispatch plugins msg (g, s)

  -- `handle_message`; the plugins work on this state and on one of their own, `S`.
  unfoldable pub handle_message :
      {S : Type 0}
      → F
      → F
      → Disk
      → List (Plugin Fields (Gateway × S))
      → Fields
      → Gateway × S
      → Result (Unit {0}) × (Gateway × S)
  handle_message poll now d plugins msg (g, s) =
      dispatch_after plugins msg s (poll_config poll now d (noted msg g))
