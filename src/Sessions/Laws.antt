-- ===== src/Sessions/Laws.antt =====
-- What a session's choice of modules means for the later tests of it.
use diplom_code.Base.{
  ◌≡◌, refl, ℤ, String, Bool, some, [], ◌==◌, string_eq, nat_eq, int_eq, if◌then◌else◌, ap, ◌∙◌,
  inl, inr, Bool-cases,
}
use diplom_code.Base.Dict.{Dict, lookup, lookup_or, insert, lookup-insert, lookup_or-insert}
use diplom_code.Py.{Runtime, end, field, Fields, truthy}
use diplom_code.Sessions.{
  Sessions, module_key, normalize_into, set_session_modules, is_module_enabled_for_session,
}

module _ ⦃rt : Runtime⦄ where
  -- The last entry that spells a module's name, up to case and blanks around it.
  unfoldable pub choice : String → Bool → Fields → Bool
  choice key current end = current
  choice key current (field k v fs) =
      choice key (if module_key k == key then truthy v else current) fs

  lookup-normalize_into :
      (key : String) (default : Bool) (acc : Dict String Bool) (fs : Fields)
      → lookup_or key default (normalize_into acc fs) ≡ choice key (lookup_or key default acc) fs
  unfolding normalize_into choice
  lookup-normalize_into key default acc end = refl
  lookup-normalize_into key default acc (field k v fs) =
      lookup-normalize_into key default (insert (module_key k) (truthy v) acc) fs
      ∙ ap (λ b. choice key b fs) (lookup_or-insert (module_key k) key (truthy v) default acc)

  lookup_or-nil : (key : String) (default : Bool) → lookup_or {V = Bool} key default [] ≡ default
  unfolding lookup_or lookup
  lookup_or-nil key default = refl

  -- After a session's choice, a module is enabled in that session as the last entry with its name
  -- says, and by the default if there is none; the other sessions are as before.
  pub is_enabled-set :
      (sid j : ℤ) (modules : Fields) (s : Sessions) (name : String) (default : Bool)
      → is_module_enabled_for_session (some j) name default (set_session_modules sid modules s) ≡ (
          if sid == j
          then choice (module_key name) default modules
          else is_module_enabled_for_session (some j) name default s)
  unfolding is_module_enabled_for_session set_session_modules
  is_enabled-set sid j modules s name default = elim (Bool-cases (sid == j)) [
    | inl same ↦
        rw (lookup-insert, same)
          (lookup-normalize_into (module_key name) default [] modules
            ∙ ap (λ b. choice (module_key name) b modules)
                (lookup_or-nil (module_key name) default))
    | inr other ↦ rw (lookup-insert, other)
  ]
