-- ===== src/Text.antt =====
-- code/ai-gateway/modules/text/normalize.py: the reply of the speech service, in its own or a common
-- other spelling, brought into one shape.
pub mod Content
pub mod Features
pub mod Transcription
use diplom_code.Base.{
  ◌≡◌, refl, ℕ, zero, suc, ◌+◌, ◌-◌, ◌≤◌, ◌<◌, ℤ, pos, negsuc, String, Bool, true, false, not, ◌&&◌,
  ◌||◌, Option, none, some, List, [], ◌∷◌, ◌++◌, ◌==◌, string_eq, nat_eq, int_eq, ltb, leb, eqb,
  if◌then◌else◌, arith, ap, sym, ◌∙◌, subst, inl, inr, ◌⊎◌, Bool-cases, Option-cases, length, map,
  All, filter, is_nil, is_blank, is_empty, strip, ◌≢◌, ◌↔◌, ◌+ℤ◌, ◌-ℤ◌, ◌*ℤ◌, ◌≤ℤ◌, ◌<ℤ◌, ltb_ℤ,
  leb_ℤ, eqb_ℤ, min_ℤ, max_ℤ, pos_part, neg_part, sub_ℕ, ◌*◌, ◌/◌, ◌^◌, ◌<>◌, last_n, take, drop,
  any, all, get_elem?, sort_by, length-append, last_n-append, take_text, length_text,
}
use diplom_code.Base.Dict.{Dict, keys, lookup, lookup_or, insert, lookup-insert, lookup_or-insert}
use diplom_code.Py.{
  Runtime, IsDouble, null, bool, int, float, str, arr, obj, nil, cons, end, field, Value, Items,
  Fields, get, get_or, has, fields, items, number, truthy, or_else, text_of, is_filled, is_str,
  is_dict, is_list, is_bool, is_null, dict_or_empty, zero_f, one_f, min_f, max_f, set_field, update,
  opt_str, opt_float, opt_int, Result, ok, raise, ◌>>=◌, ◌>>◌, require,
}

module _ ⦃rt : Runtime⦄ where
  -- The text without blanks around it, if something is left.
  abbrev pub stripped : String → Option String
  stripped s = if is_blank s then none else some (strip s)

  -- `_str_or_none`
  unfoldable pub str_or_none : Value → Option String
  str_or_none null = none
  str_or_none v = stripped (text_of v)

  abbrev pub or_some : Option String → Option String → Option String
  or_some none o = o
  or_some (some s) o = some s

  -- `" ".join(...)` of one text and more
  abbrev pub join : String → List String → String
  join p [] = p
  join p (q ∷ ps) = p <> (" " <> join q ps)

  abbrev pub cons_text : Option String → List String → List String
  cons_text none ps = ps
  cons_text (some t) ps = t ∷ ps

  -- The texts of the segments that have one.
  unfoldable pub parts : Items → List String
  parts nil = []
  parts (cons (obj fs) xs) = cons_text (str_or_none (get "text" fs)) (parts xs)
  parts (cons _ xs) = parts xs

  -- `not partial`
  abbrev pub lacks : Option String → Bool
  lacks none = true
  lacks (some s) = is_nil s

  abbrev pub joined : Option String → List String → Option String
  joined partial [] = partial
  joined partial (p ∷ ps) = some (join p ps)

  unfoldable pub with_segments : Option String → Value → Option String
  with_segments partial (arr xs) = if lacks partial then joined partial (parts xs) else partial
  with_segments partial _ = partial

  unfoldable pub partial_of : Fields → Option String
  partial_of raw =
      with_segments
        (or_some (str_or_none (get "transcript_partial" raw)) (
          str_or_none
            (or_else (or_else (get "text" raw) (get "transcription" raw)) (get "hypothesis" raw))))
        (get "segments" raw)

  unfoldable pub final_of : Fields → Option String
  final_of raw =
      or_some (str_or_none (get "transcript_final" raw))
        (str_or_none (or_else (get "final_transcript" raw) (get "final" raw)))

  unfoldable pub normalize_asr_response : Fields → Fields
  normalize_asr_response raw =
      let lang = get "language" raw in
      fields (
        ("transcript_partial", opt_str (partial_of raw))
        ∷ ("transcript_final", opt_str (final_of raw))
        ∷ ("language", if is_filled lang then lang else null)
        ∷ ("text_features", obj (dict_or_empty (get "text_features" raw)))
        ∷ [])

  unfoldable pub has_transcript_content : Fields → Bool
  has_transcript_content norm =
      is_filled (get "transcript_partial" norm) || is_filled (get "transcript_final" norm)
