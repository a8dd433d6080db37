-- ===== src/Config/Reload.antt =====
-- When the configuration is read again.
use diplom_code.Base.{
  ◌≡◌, refl, ℕ, String, Bool, true, false, Option, none, some, string_eq, nat_eq, int_eq, arith,
  inl, inr, ◌⊎◌, Bool-cases, ◌≢◌, is_nil,
}
use diplom_code.Py.{Runtime, Result, ok, raise}
use diplom_code.Config.{
  GatewayConfig, Disk, State, load_gateway_config, maybe_reload_gateway_config, reload, tracked,
  same_mtime, poll_mtime, poll_path,
}

module _ ⦃rt : Runtime⦄ where
  -- The tracked file is there, and its time of change `m` is not the one that was noted.
  abbrev pub Changed : Disk → State → ℕ → Type 0
  Changed d s m =
      (path : String) × (s.track_path ≡ some path)
      × (path ≢ "")
      × (d.mtime path ≡ some m)
      × (s.track_mtime ≢ some m)

  -- A changed file that can be loaded, one that cannot, or no changed file.
  abbrev pub Polled : Disk → State → Result Bool × State → Type 0
  Polled d s r =
      ((m : ℕ) × (cfg : GatewayConfig) × Changed d s m
        × (load_gateway_config d ≡ ok cfg)
        × (r ≡ (ok true, record s { cfg = some cfg; track_mtime = some m })))
      ⊎ ((m : ℕ) × (e : String) × Changed d s m
          × (load_gateway_config d ≡ raise e)
          × (r ≡ (raise e, s)))
      ⊎ ((m : ℕ) → ¬ Changed d s m) × (r ≡ (ok false, s))

  reload-Polled :
      (d : Disk) (m : ℕ) (s : State) (r : Result GatewayConfig)
      → Changed d s m
      → load_gateway_config d ≡ r
      → Polled d s (reload r m s)
  unfolding reload
  reload-Polled d m s (ok cfg) c l = inl (m, cfg, c, l, refl)
  reload-Polled d m s (raise e) c l = inr (inl (m, e, c, l, refl))

  same_mtime-eq : (o : Option ℕ) (m : ℕ) → same_mtime o m ≡ true → o ≡ some m
  same_mtime-eq none m h = cc
  same_mtime-eq (some n) m h = ground (arith, h)

  same_mtime-ne : (o : Option ℕ) (m : ℕ) → same_mtime o m ≡ false → o ≢ some m
  same_mtime-ne none m h e = cc
  same_mtime-ne (some n) m h e = ground (arith, h, e)

  poll_mtime-Polled :
      (d : Disk) (s : State) (path : String) (o : Option ℕ)
      → s.track_path ≡ some path
      → path ≢ ""
      → d.mtime path ≡ o
      → Polled d s (poll_mtime d o s)
  unfolding poll_mtime
  poll_mtime-Polled d s path none t n e = inr (inr (gone, refl))
    where
      gone : (m : ℕ) → ¬ Changed d s m
      gone m (p, t', _, e', _) = cc
  poll_mtime-Polled d s path (some m) t n e = elim (Bool-cases (same_mtime s.track_mtime m)) [
    | inl same ↦
        let noted : s.track_mtime ≡ some m = same_mtime-eq s.track_mtime m same in
        rw same (inr (inr (λ k (p, t', _, e', other). other (cc), refl)))
    | inr differs ↦ rw differs (
        reload-Polled d m s (load_gateway_config d)
          (path, t, n, e, same_mtime-ne s.track_mtime m differs) refl)
  ]

  is_nil-eq : (t : String) → is_nil t ≡ true → t ≡ ""
  is_nil-eq String.[] h = refl
  is_nil-eq (String.◌∷◌ c t) h = cc

  tracked_cases :
      (s : State) (o : Option String)
      → s.track_path ≡ o
      → ((tracked s ≡ none) × ((path : String) → o ≡ some path → path ≡ ""))
        ⊎ ((path : String) × (o ≡ some path) × (path ≢ "") × (tracked s ≡ some path))
  unfolding tracked
  tracked_cases s none e = inl (ground arith, λ path h. cc)
  tracked_cases s (some path) e = elim (Bool-cases (is_nil path)) [
    | inl empty ↦ inl (ground arith, λ p h. cc (is_nil-eq path empty))
    | inr filled ↦ inr (path, refl, λ h. cc, ground arith)
  ]

  poll_path-Polled : (d : Disk) (s : State) → Polled d s (poll_path d (tracked s) s)
  unfolding poll_path
  poll_path-Polled d s = elim (tracked_cases s s.track_path refl) [
    | inl (free, empty) ↦ rw free (inr (inr (λ m (p, t, n, _, _). n (empty p t), refl)))
    | inr (path, t, n, e) ↦ rw e (poll_mtime-Polled d s path (d.mtime path) t n refl)
  ]

  -- A poll has three cases. When the tracked file is there and its time of change is not the one
  -- noted, the configuration on the disk is put in place, this time is noted, and the reload is
  -- reported; or, when the disk cannot be loaded, that exception is raised and nothing changes.
  -- Otherwise nothing changes and no reload is reported.
  pub reload_cases : (d : Disk) (s : State) → Polled d s (maybe_reload_gateway_config d s)
  unfolding maybe_reload_gateway_config
  reload_cases d s = poll_path-Polled d s

  -- After a poll that reloaded, a second poll of the same disk reloads nothing and changes nothing.
  pub reload_settles :
      (d : Disk) (s : State)
      → (maybe_reload_gateway_config d s).0 ≡ ok true
      → let s' = (maybe_reload_gateway_config d s).1 in
        maybe_reload_gateway_config d s' ≡ (ok false, s')
  unfolding maybe_reload_gateway_config reload tracked poll_path poll_mtime
  reload_settles d s h = ground arith
