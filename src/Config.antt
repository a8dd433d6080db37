-- ===== src/Config.antt =====
-- code/ai-gateway/gateway_config.py: the JSON configuration and its reload when the mounted file
-- changes. The environment variable and the disk are an argument.
pub mod Reload
pub mod Snapshot
use diplom_code.Base.{
  ◌≡◌, refl, ℕ, zero, suc, ◌+◌, ◌-◌, ◌≤◌, ◌<◌, ℤ, pos, negsuc, String, Bool, true, false, not, ◌&&◌,
  ◌||◌, Option, none, some, List, [], ◌∷◌, ◌++◌, ◌==◌, string_eq, nat_eq, int_eq, ltb, leb, eqb,
  if◌then◌else◌, arith, ap, sym, ◌∙◌, subst, inl, inr, ◌⊎◌, Bool-cases, Option-cases, length, map,
  All, filter, is_nil, is_blank, is_empty, strip, ◌≢◌, ◌↔◌, ◌+ℤ◌, ◌-ℤ◌, ◌*ℤ◌, ◌≤ℤ◌, ◌<ℤ◌, ltb_ℤ,
  leb_ℤ, eqb_ℤ, min_ℤ, max_ℤ, pos_part, neg_part, sub_ℕ, ◌*◌, ◌/◌, ◌^◌, ◌<>◌, last_n, take, drop,
  any, all, get_elem?, sort_by, length-append, last_n-append, take_text, length_text,
}
use diplom_code.Base.Dict.{Dict, keys, lookup, lookup_or, insert, lookup-insert, lookup_or-insert}
use diplom_code.Py.{
  Runtime, IsDouble, null, bool, int, float, str, arr, obj, nil, cons, end, field, Value, Items,
  Fields, get, get_or, has, fields, items, number, truthy, or_else, text_of, is_filled, is_str,
  is_dict, is_list, is_bool, is_null, dict_or_empty, zero_f, one_f, min_f, max_f, set_field, update,
  opt_str, opt_float, opt_int, Result, ok, raise, ◌>>=◌, ◌>>◌, require,
}

module _ ⦃rt : Runtime⦄ where
  pub record ModuleCfg : Type 0 where
    pub enabled : Bool
    pub provider : String
    pub model : String
    pub params : Fields

  -- `GatewayConfig`; `cfg.module(name)` is `lookup name cfg`.
  abbrev pub GatewayConfig : Type 0
  GatewayConfig = Dict String ModuleCfg

  -- `AI_GATEWAY_MODULES_CONFIG` and the files, as they are when a function runs.
  pub record Disk : Type 0 where
    pub env_path : String
    pub is_file : String → Bool
    -- `stat().st_mtime_ns`; none is an `OSError`
    pub mtime : String → Option ℕ
    -- the JSON of a file, and that of `modules.default.json`
    pub json : String → Result Value
    pub default_json : Result Value

  -- `dict(v or {})`; a list of pairs is taken for an error here
  abbrev dict_of : Value → Result Fields
  dict_of (obj fs) = ok fs
  dict_of v = if truthy v then raise "TypeError" else ok end

  module_cfg : Fields → Result ModuleCfg
  module_cfg val = do
    params ← dict_of (get "params" val)
    ok (record {
      enabled = truthy (get_or "enabled" (bool true) val);
      provider = text_of (get_or "provider" (str "") val);
      model = text_of (get_or "model" (str "") val);
      params = params;
    })

  -- Entries that are no objects are skipped.
  modules_of : Fields → Result GatewayConfig
  unfolding module_cfg
  modules_of end = ok []
  modules_of (field key (obj val) fs) =
      let rest = modules_of fs in do m ← module_cfg val; ms ← rest; ok ((key, m) ∷ ms)
  modules_of (field key _ fs) = modules_of fs

  -- `(v or {})`, whose `items` is then called
  abbrev modules_raw : Value → Result Fields
  modules_raw (obj fs) = ok fs
  modules_raw v = if truthy v then raise "AttributeError" else ok end

  config_of : Value → Result GatewayConfig
  unfolding modules_of
  config_of (obj fields) = do modules ← modules_raw (get "modules" fields); modules_of modules
  config_of _ = raise "AttributeError"

  unfoldable pub load_gateway_config : Disk → Result GatewayConfig
  unfolding config_of
  load_gateway_config d = do
    content ←
        (if not (is_nil d.env_path) && d.is_file d.env_path
          then d.json d.env_path
          else d.default_json)
    config_of content

  -- `_CFG`, `_TRACK_PATH` and `_TRACK_MTIME_NS`
  pub record State : Type 0 where
    pub cfg : Option GatewayConfig
    pub track_path : Option String
    pub track_mtime : Option ℕ

  -- `_refresh_config_track`; the file may vanish between the test and `stat`.
  unfoldable pub refresh_config_track : Disk → State → Result (Unit {0}) × State
  refresh_config_track d s =
      let path = strip d.env_path in
      if not (is_nil path) && d.is_file path
      then elim (d.mtime path) [
        | none ↦ (raise "OSError", record s { track_path = some path })
        | some m ↦ (ok tt, record s { track_path = some path; track_mtime = some m })
      ]
      else (ok tt, record s { track_path = none; track_mtime = none })

  abbrev pub finish : GatewayConfig → Result (Unit {0}) × State → Result GatewayConfig × State
  finish cfg (ok _, s) = (ok cfg, s)
  finish cfg (raise e, s) = (raise e, s)

  abbrev pub loaded_first : Disk → State → Result GatewayConfig → Result GatewayConfig × State
  loaded_first d s (raise e) = (raise e, s)
  loaded_first d s (ok cfg) = finish cfg (refresh_config_track d (record s { cfg = some cfg }))

  abbrev pub in_place : Disk → State → Option GatewayConfig → Result GatewayConfig × State
  in_place d s none = loaded_first d s (load_gateway_config d)
  in_place d s (some cfg) = (ok cfg, s)

  unfoldable pub get_gateway_config : Disk → State → Result GatewayConfig × State
  get_gateway_config d s = in_place d s s.cfg

  abbrev pub same_mtime : Option ℕ → ℕ → Bool
  same_mtime none m = false
  same_mtime (some n) m = n == m

  -- What a changed file leads to, given what it loads as.
  unfoldable pub reload : Result GatewayConfig → ℕ → State → Result Bool × State
  reload (raise e) m s = (raise e, s)
  reload (ok cfg) m s = (ok true, record s { cfg = some cfg; track_mtime = some m })

  unfoldable pub poll_mtime : Disk → Option ℕ → State → Result Bool × State
  poll_mtime d none s = (ok false, s)
  poll_mtime d (some m) s =
      if same_mtime s.track_mtime m then (ok false, s) else reload (load_gateway_config d) m s

  unfoldable pub poll_path : Disk → Option String → State → Result Bool × State
  poll_path d none s = (ok false, s)
  poll_path d (some path) s = poll_mtime d (d.mtime path) s

  -- `not _TRACK_PATH`: none and the empty text alike
  unfoldable pub tracked : State → Option String
  tracked s = elim s.track_path [ none ↦ none | some p ↦ if is_nil p then none else some p ]

  unfoldable pub maybe_reload_gateway_config : Disk → State → Result Bool × State
  maybe_reload_gateway_config d s = poll_path d (tracked s) s

  unfoldable pub set_gateway_config : Disk → GatewayConfig → State → Result (Unit {0}) × State
  set_gateway_config d cfg s = refresh_config_track d (record s { cfg = some cfg })

  abbrev snapshot_modules : GatewayConfig → Fields
  snapshot_modules [] = end
  snapshot_modules ((name, m) ∷ cfg) =
      field name
        (obj (
          fields (
            ("enabled", bool m.enabled)
            ∷ ("provider", str m.provider)
            ∷ ("model", str m.model)
            ∷ ("params", obj m.params)
            ∷ [])))
        (snapshot_modules cfg)

  -- `config_snapshot`, of the configuration that `get_gateway_config` returns
  unfoldable pub config_snapshot : GatewayConfig → Value
  config_snapshot cfg = obj (field "modules" (obj (snapshot_modules cfg)) end)
