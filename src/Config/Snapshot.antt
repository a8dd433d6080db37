-- ===== src/Config/Snapshot.antt =====
-- code/ai-gateway/gateway_config.py: the snapshot of the configuration that goes into reports.
use diplom_code.Base.{string_eq, ◌≡◌, refl, true, false, [], ◌∷◌, is_nil}
use diplom_code.Py.{Runtime, ok}
use diplom_code.Config.{
  GatewayConfig, Disk, load_gateway_config, config_snapshot, config_of, modules_of,
  snapshot_modules, module_cfg,
}

module _ ⦃rt : Runtime⦄ where
  modules_of-snapshot : (cfg : GatewayConfig) → modules_of (snapshot_modules cfg) ≡ ok cfg
  unfolding modules_of module_cfg
  modules_of-snapshot [] = refl
  modules_of-snapshot ((name, m) ∷ cfg) = rw (modules_of-snapshot cfg) refl

  -- Where the file of the modules holds the snapshot of a configuration, loading it gives this
  -- configuration back, with its modules in the same order.
  pub load-snapshot :
      (d : Disk) (cfg : GatewayConfig)
      → is_nil d.env_path ≡ false
      → d.is_file d.env_path ≡ true
      → d.json d.env_path ≡ ok (config_snapshot cfg)
      → load_gateway_config d ≡ ok cfg
  unfolding load_gateway_config config_of config_snapshot
  load-snapshot d cfg h k j = rw (h, k, j) (modules_of-snapshot cfg)
