-- ===== src/Text/Features.antt =====
-- code/ai-gateway/modules/text/features.py: a sentiment, a confidence and key phrases for a
-- transcript, where the speech service gives none.
pub mod Phrases
use Prim.Native.Char.{code}
use diplom_code.Base.{
  ◌≡◌, refl, ℕ, zero, suc, ◌+◌, ◌-◌, ◌≤◌, ◌<◌, ℤ, pos, negsuc, String, Bool, true, false, not, ◌&&◌,
  ◌||◌, Option, none, some, List, [], ◌∷◌, ◌++◌, ◌==◌, string_eq, nat_eq, int_eq, ltb, leb, eqb,
  if◌then◌else◌, arith, ap, sym, ◌∙◌, subst, inl, inr, ◌⊎◌, Bool-cases, Option-cases, length, map,
  All, filter, is_nil, is_blank, is_empty, strip, ◌≢◌, ◌↔◌, ◌+ℤ◌, ◌-ℤ◌, ◌*ℤ◌, ◌≤ℤ◌, ◌<ℤ◌, ltb_ℤ,
  leb_ℤ, eqb_ℤ, min_ℤ, max_ℤ, pos_part, neg_part, sub_ℕ, ◌*◌, ◌/◌, ◌^◌, ◌<>◌, last_n, take, drop,
  any, all, get_elem?, sort_by, length-append, last_n-append, take_text, length_text, occurs,
  contains, min,
}
use diplom_code.Base.Dict.{Dict, keys, lookup, lookup_or, insert, lookup-insert, lookup_or-insert}
use diplom_code.Py.{
  Runtime, IsDouble, null, bool, int, float, str, arr, obj, nil, cons, end, field, Value, Items,
  Fields, get, get_or, has, fields, items, number, truthy, or_else, text_of, is_filled, is_str,
  is_dict, is_list, is_bool, is_null, dict_or_empty, zero_f, one_f, min_f, max_f, set_field, update,
  opt_str, opt_float, opt_int, Result, ok, raise, ◌>>=◌, ◌>>◌, require,
}

module _ ⦃rt : Runtime⦄ where
  open rt use {F, lit, of_int, add, div, round_at, lower, is_word}

  abbrev pos_hints : List String
  pos_hints =
      "спасибо" ∷ "хорошо" ∷ "отлично" ∷ "рад" ∷ "thanks" ∷ "great" ∷ "good" ∷ "love" ∷ "happy"
      ∷ "excellent" ∷ []

  abbrev neg_hints : List String
  neg_hints =
      "плохо" ∷ "нет" ∷ "ошибк" ∷ "проблем" ∷ "bad" ∷ "hate" ∷ "sorry" ∷ "fail" ∷ "ugly" ∷ "error"
      ∷ []

  -- The hints that occur in a text.
  unfoldable hits : String → List String → ℕ
  hits tl [] = 0
  hits tl (w ∷ ws) = (if occurs w tl then 1 else 0) + hits tl ws

  -- `_guess_sentiment`
  unfoldable pub guess_sentiment : String → String
  unfolding hits
  guess_sentiment text =
      let tl = lower text in
      let score = sub_ℕ (hits tl pos_hints) (hits tl neg_hints) in
      if ltb_ℤ (pos 0) score
      then "positive"
      else if ltb_ℤ score (pos 0)
      then "negative"
      else "neutral"

  -- `re.split(r"\W+", text)`, up to empty texts
  unfoldable pub split_words : String → String × List String
  split_words String.[] = ("", [])
  split_words (String.◌∷◌ c s) =
      let (w, ws) = split_words s in if is_word (code c) then (String.◌∷◌ c w, ws) else ("", w ∷ ws)

  unfoldable pub long_words : String → List String
  long_words text = let (w, ws) = split_words text in filter (λ x. ltb 2 (length_text x)) (w ∷ ws)

  -- The loop of `_keyphrases` with `left` phrases to go.
  unfoldable pub new_words : ℕ → List String → List String → List String
  new_words zero seen ws = []
  new_words (suc left) seen [] = []
  new_words (suc left) seen (w ∷ ws) = elim (contains (lower w) seen) [
    | true ↦ new_words (suc left) seen ws
    | false ↦ w ∷ new_words left (lower w ∷ seen) ws
  ]

  -- `_keyphrases`; the limit is positive.
  unfoldable pub keyphrases : String → List String
  keyphrases text = new_words 8 [] (long_words text)

  abbrev texts : List String → Items
  texts [] = nil
  texts (s ∷ ss) = cons (str s) (texts ss)

  abbrev pub text_or_nil : Option String → String
  text_or_nil none = ""
  text_or_nil (some s) = s

  -- `transcript_final or transcript_partial or ""`
  abbrev pub first_filled : Option String → Option String → String
  first_filled (some final) partial = if is_nil final then text_or_nil partial else final
  first_filled none partial = text_or_nil partial

  abbrev pub default_to : String → Bool → Value → Fields → Fields
  default_to key missing v fs = if missing then set_field key v fs else fs

  abbrev pub is_empty_list : Value → Bool
  is_empty_list (arr (cons x xs)) = false
  is_empty_list _ = true

  unfoldable pub guess_confidence : String → F
  guess_confidence text = round_at 3 (
      min_f (lit 95 2)
        (add (lit 25 2) (div (of_int (pos (min (length_text text) 200))) (lit 4000 1))))

  -- The assignments of `enrich_text_features` for a text that is not empty.
  unfoldable pub enrich : String → Fields → Fields
  enrich text fs =
      let with_sentiment =
        default_to "sentiment" (is_blank (text_of (or_else (get "sentiment" fs) (str ""))))
          (str (guess_sentiment text)) fs in
      let with_confidence =
        default_to "confidence" (is_null (get "confidence" with_sentiment))
          (float (guess_confidence text)) with_sentiment in
      let with_topics =
        default_to "topics" (not (is_list (get "topics" with_confidence))) (arr nil)
          with_confidence in
      default_to "keyphrases" (is_empty_list (get "keyphrases" with_topics))
        (arr (texts (keyphrases text))) with_topics

  unfoldable pub enrich_text_features : Option String → Option String → Fields → Fields
  enrich_text_features partial final text_features =
      let text = strip (first_filled final partial) in
      if is_nil text then text_features else enrich text text_features
