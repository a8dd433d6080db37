-- ===== src/Plugins/Named.antt =====
-- code/ai-gateway/gateway_config.py: the names of the models in the configurations.
use diplom_code.Base.{
  string_eq, int_eq, nat_eq, ◌≡◌, refl, ◌∙◌, sym, subst, String, true, false, Option, none, some,
  inl, inr, ◌⊎◌, is_nil, is_blank, arith,
}
use diplom_code.Base.Dict.{lookup}
use diplom_code.Py.{Runtime, Result, ok, raise, ok-injective}
use diplom_code.Config.{
  finish, loaded_first, in_place, ModuleCfg, GatewayConfig, Disk, State, load_gateway_config,
  get_gateway_config, refresh_config_track, maybe_reload_gateway_config, finish,
}
use diplom_code.Config.Reload.{reload_cases}

module _ ⦃rt : Runtime⦄ where
  -- The model of a module is empty, so that a default stands for it, or it is not blank.
  abbrev pub Named : GatewayConfig → Type 0
  Named cfg =
      (name : String) (m : ModuleCfg)
      → lookup name cfg ≡ some m
      → (is_nil m.model ≡ true) ⊎ (is_blank m.model ≡ false)

  -- So for every configuration on the disk, and for the one in place.
  abbrev pub NamedOnDisk : Disk → Type 0
  NamedOnDisk d = (cfg : GatewayConfig) → load_gateway_config d ≡ ok cfg → Named cfg

  abbrev pub NamedNow : State → Type 0
  NamedNow s = (cfg : GatewayConfig) → s.cfg ≡ some cfg → Named cfg

  refresh-cfg : (d : Disk) (s : State) → (refresh_config_track d s).1.cfg ≡ s.cfg
  unfolding refresh_config_track
  refresh-cfg d s = ground arith

  some-injective : {A : Type 0} {a b : A} → some a ≡ some b → a ≡ b
  some-injective h = cc

  -- What `get_gateway_config` returns, and what is in place after it.
  abbrev pub Got : Result GatewayConfig × State → Type 0
  Got r = ((cfg : GatewayConfig) → r.0 ≡ ok cfg → Named cfg) × NamedNow r.1

  finish-Got :
      (cfg : GatewayConfig) (r : Result (Unit {0}) × State)
      → r.1.cfg ≡ some cfg
      → Named cfg
      → Got (finish cfg r)
  finish-Got cfg (ok u, s) e h =
      (λ c p. subst Named (ok-injective p) h, λ c p. subst Named (some-injective (sym e ∙ p)) h)
  finish-Got cfg (raise x, s) e h = (λ c p. cc, λ c p. subst Named (some-injective (sym e ∙ p)) h)

  loaded-Got :
      (d : Disk) (s : State) (r : Result GatewayConfig)
      → ((cfg : GatewayConfig) → r ≡ ok cfg → Named cfg)
      → NamedNow s
      → Got (loaded_first d s r)
  loaded-Got d s (ok cfg) disk now =
      finish-Got cfg (refresh_config_track d (record s { cfg = some cfg }))
        (refresh-cfg d (record s { cfg = some cfg })) (disk cfg refl)
  loaded-Got d s (raise x) disk now = (λ c p. cc, now)

  in_place-Got :
      (d : Disk) (s : State) (o : Option GatewayConfig)
      → s.cfg ≡ o
      → NamedOnDisk d
      → NamedNow s
      → Got (in_place d s o)
  in_place-Got d s none e disk now = loaded-Got d s (load_gateway_config d) disk now
  in_place-Got d s (some c) e disk now = (λ c' p. subst Named (ok-injective p) (now c e), now)

  pub get-Got : (d : Disk) (s : State) → NamedOnDisk d → NamedNow s → Got (get_gateway_config d s)
  unfolding get_gateway_config
  get-Got d s disk now = in_place-Got d s s.cfg refl disk now

  pub poll-NamedNow :
      (d : Disk) (s : State)
      → NamedOnDisk d
      → NamedNow s
      → NamedNow (maybe_reload_gateway_config d s).1
  poll-NamedNow d s disk now = elim (reload_cases d s) [
    | inl (m, cfg, _, l, e) ↦
        subst (λ r. NamedNow r.1) (sym e) (λ c p. subst Named (some-injective p) (disk cfg l))
    | inr (inl (m, x, _, _, e)) ↦ subst (λ r. NamedNow r.1) (sym e) now
    | inr (inr (_, e)) ↦ subst (λ r. NamedNow r.1) (sym e) now
  ]
