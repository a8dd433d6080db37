-- ===== src/Client.antt =====
-- code/ai-gateway/ws_client.py: the connection settings, and the delays between connections.
pub mod Backoff
use diplom_code.Base.{
  ◌≡◌, refl, ℕ, zero, suc, ◌+◌, ◌-◌, ◌≤◌, ◌<◌, ℤ, pos, negsuc, String, Bool, true, false, not, ◌&&◌,
  ◌||◌, Option, none, some, List, [], ◌∷◌, ◌++◌, ◌==◌, string_eq, nat_eq, int_eq, ltb, leb, eqb,
  if◌then◌else◌, arith, ap, sym, ◌∙◌, subst, inl, inr, ◌⊎◌, Bool-cases, Option-cases, length, map,
  All, filter, is_nil, is_blank, is_empty, strip, ◌≢◌, ◌↔◌, ◌+ℤ◌, ◌-ℤ◌, ◌*ℤ◌, ◌≤ℤ◌, ◌<ℤ◌, ltb_ℤ,
  leb_ℤ, eqb_ℤ, min_ℤ, max_ℤ, pos_part, neg_part, sub_ℕ, ◌*◌, ◌/◌, ◌^◌, ◌<>◌, last_n, take, drop,
  any, all, get_elem?, sort_by, length-append, last_n-append, take_text, length_text, min,
}
use diplom_code.Base.Dict.{Dict, keys, lookup, lookup_or, insert, lookup-insert, lookup_or-insert}
use diplom_code.Py.{
  Runtime, IsDouble, null, bool, int, float, str, arr, obj, nil, cons, end, field, Value, Items,
  Fields, get, get_or, has, fields, items, number, truthy, or_else, text_of, is_filled, is_str,
  is_dict, is_list, is_bool, is_null, dict_or_empty, zero_f, one_f, min_f, max_f, set_field, update,
  opt_str, opt_float, opt_int, Result, ok, raise, ◌>>=◌, ◌>>◌, require,
}
use text.Mathlib.Text.{starts_with}

-- `s[n:]`
abbrev drop_text : ℕ → String → String
drop_text zero s = s
drop_text (suc n) String.[] = String.[]
drop_text (suc n) (String.◌∷◌ c s) = drop_text n s

-- `s.split(sep)[0]`
unfoldable pub before_text : String → String → String
before_text sep String.[] = String.[]
before_text sep (String.◌∷◌ c s) =
    let rest = before_text sep s in
    if starts_with (String.◌∷◌ c s) sep then String.[] else String.◌∷◌ c rest

-- `_http_base`
unfoldable pub http_base : String → String
unfolding before_text
http_base url =
    if starts_with url "ws://"
    then "http://" <> before_text "/ws/" (drop_text 5 url)
    else if starts_with url "wss://"
    then "https://" <> before_text "/ws/" (drop_text 6 url)
    else "http://backend:8080"

module _ ⦃rt : Runtime⦄ where
  open rt use {F, le, lt, lit, lower, parse_int, parse_float}

  abbrev pub default_max_size : ℤ
  default_max_size = pos (52 * 1024 * 1024)

  -- `_connect_max_msg_size`, of the environment variable, if it is set; none is no limit
  unfoldable pub connect_max_msg_size : Option String → Option ℤ
  connect_max_msg_size none = some default_max_size
  connect_max_msg_size (some value) =
      let raw = lower (strip value) in
      if raw == "0" || raw == "" || raw == "none" || raw == "unlimited" || raw == "inf"
      then none
      else elim (parse_int raw) [
        | none ↦ some default_max_size
        | some n ↦ if leb_ℤ n (pos 0) then none else some n
      ]

  -- A time from an environment variable with a default; none switches it off.
  timeout_of : F → Option String → Option F
  timeout_of default none = if le default zero_f then none else some default
  timeout_of default (some value) = elim (parse_float (strip value)) [
    | none ↦ some default
    | some x ↦ if le x zero_f then none else some x
  ]

  pub record PingKw : Type 0 where
    pub ping_interval : Option F
    pub ping_timeout : Option F
    pub close_timeout : F

  close_timeout_of : Option String → F
  close_timeout_of none = max_f (lit 50 1) (lit 300 1)
  close_timeout_of (some value) = elim (parse_float (strip value)) [
    | none ↦ lit 300 1
    | some x ↦ max_f (lit 50 1) x
  ]

  -- `_connect_ping_kw`
  unfoldable pub connect_ping_kw : Option String → Option String → Option String → PingKw
  unfolding timeout_of close_timeout_of
  connect_ping_kw interval timeout close = record {
    ping_interval = timeout_of (lit 250 1) interval;
    ping_timeout = timeout_of (lit 3000 1) timeout;
    close_timeout = close_timeout_of close;
  }

-- How one round of the loop of `connect` ends: no connection; an exception after the connection was
-- made; or the end of the stream, after which the next round starts at once.
pub data Round : Type 0 where
  refused : Round
  broken : Round
  ended : Round

pub record Client : Type 0 where
  pub backoff : ℕ
  pub access_token : Option String

abbrev pub fetch_if_missing : Option String → Option String → Option String
fetch_if_missing none fetched = fetched
fetch_if_missing (some token) fetched = if is_nil token then fetched else some token

-- The handler of the exception: the token is dropped, the delay doubled up to 30.
abbrev pub after_error : ℕ → Client
after_error backoff = record { backoff = min (backoff * 2) 30; access_token = none }

-- One round, with what `_fetch_access_token` gives; the delay before the next round, if any.
unfoldable pub round_step : Round → Option String → Client → Client × Option ℕ
round_step refused fetched c = (after_error c.backoff, some c.backoff)
round_step broken fetched c = (after_error 1, some 1)
round_step ended fetched c =
    (record { backoff = 1; access_token = fetch_if_missing c.access_token fetched }, none)

abbrev pub start : Client
start = record { backoff = 1; access_token = none }

unfoldable pub run_rounds : List (Round × Option String) → Client → List (Option ℕ)
unfolding round_step
run_rounds [] c = []
run_rounds ((r, fetched) ∷ rounds) c =
    let (c', delay) = round_step r fetched c in delay ∷ run_rounds rounds c'
