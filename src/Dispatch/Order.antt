-- ===== src/Dispatch/Order.antt =====
-- The order of the plugins, and what a join message does.
use diplom_code.Base.{
  ◌≡◌, refl, ℤ, String, Bool, true, some, List, [], ◌∷◌, ◌++◌, ◌==◌, string_eq, nat_eq, int_eq,
  if◌then◌else◌, ap, ◌∙◌, inl, inr, Bool-cases,
}
use diplom_code.Dispatch.{Plugin, call_plugins, then_rest, note_join}
use diplom_code.Sessions.{Sessions, module_key, is_module_enabled_for_session}
use diplom_code.Sessions.Laws.{choice, is_enabled-set}
use diplom_code.Py.{Runtime, int, str, obj, Fields, get, Result, ok, raise}

then_rest_assoc :
    {S : Type 0} (r : Result (Unit {0}) × S) (f g k : S → Result (Unit {0}) × S)
    → ((t : S) → f t ≡ then_rest (g t) k)
    → then_rest r f ≡ then_rest (then_rest r g) k
then_rest_assoc (ok u, t) f g k h = h t
then_rest_assoc (raise e, t) f g k h = refl

module _ {M S : Type 0} where
  call_plugins-append :
      (ps qs : List (Plugin M S)) (msg : M) (s : S)
      → call_plugins (ps ++ qs) msg s ≡ then_rest (call_plugins ps msg s) (call_plugins qs msg)
  unfolding call_plugins
  call_plugins-append [] qs msg s = refl
  call_plugins-append (p ∷ ps) qs msg s = elim (Bool-cases (p.can_handle msg)) [
    | inl can ↦ rw can (
        then_rest_assoc (p.process msg s) (call_plugins (ps ++ qs) msg) (call_plugins ps msg)
          (call_plugins qs msg) (λ t. call_plugins-append ps qs msg t))
    | inr cannot ↦ rw cannot (call_plugins-append ps qs msg s)
  ]

  call_plugins-raise :
      (q : Plugin M S) (rest : List (Plugin M S)) (msg : M) (s s2 : S) (e : String)
      → q.can_handle msg ≡ true
      → q.process msg s ≡ (raise e, s2)
      → call_plugins (q ∷ rest) msg s ≡ (raise e, s2)
  unfolding call_plugins
  call_plugins-raise q rest msg s s2 e can fails = rw (can, fails) refl

  -- If the plugins in front succeed and the next one, which can handle the message, raises an
  -- exception, then the exception ends the loop: what comes after that plugin is not called.
  pub exception_stops :
      (ps rest : List (Plugin M S)) (q : Plugin M S) (msg : M) (s s1 s2 : S) (e : String)
      → call_plugins ps msg s ≡ (ok tt, s1)
      → q.can_handle msg ≡ true
      → q.process msg s1 ≡ (raise e, s2)
      → call_plugins (ps ++ q ∷ rest) msg s ≡ (raise e, s2)
  exception_stops ps rest q msg s s1 s2 e h can fails =
      call_plugins-append ps (q ∷ rest) msg s
      ∙ ap (λ r. then_rest r (call_plugins (q ∷ rest) msg)) h
      ∙ call_plugins-raise q rest msg s1 s2 e can fails

module _ ⦃rt : Runtime⦄ where
  -- After a join message with a session and its modules, a module is enabled in that session as the
  -- last entry with its name says, and by the default if there is none; other sessions are as before.
  pub join_enables :
      (msg payload modules : Fields) (sid j : ℤ) (s : Sessions) (name : String) (default : Bool)
      → get "type" msg ≡ str "join"
      → get "session_id" msg ≡ int sid
      → get "payload" msg ≡ obj payload
      → get "analysis_modules" payload ≡ obj modules
      → is_module_enabled_for_session (some j) name default (note_join msg s) ≡ (
          if sid == j
          then choice (module_key name) default modules
          else is_module_enabled_for_session (some j) name default s)
  unfolding note_join
  join_enables msg payload modules sid j s name default t i p m =
      rw (t, i, p, m) (is_enabled-set sid j modules s name default)
