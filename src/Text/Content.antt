-- ===== src/Text/Content.antt =====
-- When the gateway tells of a transcript.
use diplom_code.Base.{
  ◌≡◌, refl, String, Bool, true, false, not, ◌||◌, Option, none, some, List, [], ◌∷◌, string_eq,
  nat_eq, int_eq, ap, sym, ◌∙◌, subst, inl, inr, Bool-cases, is_nil, is_blank, ◌<>◌, is_blank-strip,
  is_blank-append,
}
use diplom_code.Py.{
  Runtime, null, str, arr, obj, nil, cons, Value, Items, Fields, get, or_else, text_of, is_filled,
  opt_str,
}
use diplom_code.Text.{
  stripped, str_or_none, or_some, cons_text, parts, join, joined, with_segments,
  has_transcript_content, normalize_asr_response, partial_of, final_of,
}

module _ ⦃rt : Runtime⦄ where
  -- A value with a text that is not blank.
  unfoldable pub speaks : Value → Bool
  speaks null = false
  speaks v = not (is_blank (text_of v))

  unfoldable pub segments_speak : Items → Bool
  segments_speak nil = false
  segments_speak (cons (obj fs) xs) = speaks (get "text" fs) || segments_speak xs
  segments_speak (cons _ xs) = segments_speak xs

  unfoldable pub segments_of : Value → Items
  segments_of (arr xs) = xs
  segments_of _ = nil

  -- The text of a value is not blank where there is one, and there is one where the value speaks.
  abbrev Tells : Option String → Bool → Type 0
  Tells none b = b ≡ false
  Tells (some s) b = (is_blank s ≡ false) × (b ≡ true)

  is_filled-Tells : (o : Option String) (b : Bool) → Tells o b → is_filled (opt_str o) ≡ b
  is_filled-Tells none b h = sym h
  is_filled-Tells (some s) b (filled, h) = rw (filled, h) refl

  stripped-Tells : (s : String) → Tells (stripped s) (not (is_blank s))
  stripped-Tells s = elim (Bool-cases (is_blank s)) [
    | inl blank ↦ rw blank refl
    | inr filled ↦ rw filled (is_blank-strip s ∙ filled, refl)
  ]

  str_or_none_lem : (v : Value) → Tells (str_or_none v) (speaks v)
  unfolding str_or_none speaks
  str_or_none_lem null = refl
  str_or_none_lem (str s) = stripped-Tells s
  str_or_none_lem v = stripped-Tells (text_of v)

  or_some_lem :
      (o p : Option String) (b c : Bool) → Tells o b → Tells p c → Tells (or_some o p) (b || c)
  or_some_lem none p b c h k = subst (λ x. Tells p (x || c)) (sym h) k
  or_some_lem (some s) p b c (filled, h) k = (filled, ap (λ x. x || c) h)

  -- The texts of segments: none, or the first of them is not blank.
  abbrev TellsOf : List String → Bool → Type 0
  TellsOf [] b = b ≡ false
  TellsOf (p ∷ ps) b = (is_blank p ≡ false) × (b ≡ true)

  cons_text_lem :
      (o : Option String) (ps : List String) (b c : Bool)
      → Tells o b
      → TellsOf ps c
      → TellsOf (cons_text o ps) (b || c)
  cons_text_lem none ps b c h k = subst (λ x. TellsOf ps (x || c)) (sym h) k
  cons_text_lem (some s) ps b c (filled, h) k = (filled, ap (λ x. x || c) h)

  parts_lem : (xs : Items) → TellsOf (parts xs) (segments_speak xs)
  unfolding parts segments_speak
  parts_lem nil = refl
  parts_lem (cons (obj fs) xs) =
      cons_text_lem (str_or_none (get "text" fs)) (parts xs) (speaks (get "text" fs))
        (segments_speak xs) (str_or_none_lem (get "text" fs)) (parts_lem xs)
  parts_lem (cons null xs) = parts_lem xs
  parts_lem (cons _ xs) = parts_lem xs

  join_filled : (p : String) (ps : List String) → is_blank p ≡ false → is_blank (join p ps) ≡ false
  join_filled p [] h = h
  join_filled p (q ∷ ps) h = rw (is_blank-append p (" " <> join q ps), h) refl

  joined_lem : (ps : List String) (b : Bool) → TellsOf ps b → Tells (joined none ps) b
  joined_lem [] b h = h
  joined_lem (p ∷ ps) b (filled, h) = (join_filled p ps filled, h)

  filled_not_nil : (s : String) → is_blank s ≡ false → is_nil s ≡ false
  unfolding is_blank
  filled_not_nil String.[] h = h
  filled_not_nil (String.◌∷◌ c s) h = refl

  or_false : (b : Bool) → (b || false) ≡ b
  or_false true = refl
  or_false false = refl

  with_segments_lem :
      (o : Option String) (v : Value) (b : Bool)
      → Tells o b
      → Tells (with_segments o v) (b || segments_speak (segments_of v))
  unfolding with_segments segments_of segments_speak
  with_segments_lem none (arr xs) b h =
      subst (λ x. Tells (joined none (parts xs)) (x || segments_speak xs)) (sym h)
        (joined_lem (parts xs) (segments_speak xs) (parts_lem xs))
  with_segments_lem (some s) (arr xs) b (filled, h) =
      rw (filled_not_nil s filled) (filled, ap (λ x. x || segments_speak xs) h)
  with_segments_lem o _ b h = subst (Tells o) (sym (or_false b)) h

  cong_or : {a b c d : Bool} → a ≡ b → c ≡ d → (a || c) ≡ (b || d)
  cong_or {b = b} {c = c} p q = ap (λ x. x || c) p ∙ ap (λ y. b || y) q

  -- The gateway tells of a transcript exactly if the reply has a text that is not blank in one of
  -- the places where it looks for one: the partial transcript, the first of its other spellings that
  -- is not empty, a segment, the final transcript, or the first of its other spellings that is not
  -- empty.
  pub has_content-normalize :
      (raw : Fields)
      → has_transcript_content (normalize_asr_response raw) ≡ (
          ((speaks (get "transcript_partial" raw)
              || speaks (
                  or_else
                    (or_else (get "text" raw) (get "transcription" raw))
                    (get "hypothesis" raw)))
            || segments_speak (segments_of (get "segments" raw)))
          || (speaks (get "transcript_final" raw)
              || speaks (or_else (get "final_transcript" raw) (get "final" raw))))
  unfolding has_transcript_content normalize_asr_response partial_of final_of
  has_content-normalize raw =
      cong_or
        (is_filled-Tells (partial_of raw) _ (
          with_segments_lem _ (get "segments" raw) _ (
            or_some_lem (str_or_none (get "transcript_partial" raw)) (str_or_none other)
              (speaks (get "transcript_partial" raw)) (speaks other)
              (str_or_none_lem (get "transcript_partial" raw)) (str_or_none_lem other))))
        (is_filled-Tells (final_of raw) _ (
          or_some_lem (str_or_none (get "transcript_final" raw)) (str_or_none other_final)
            (speaks (get "transcript_final" raw)) (speaks other_final)
            (str_or_none_lem (get "transcript_final" raw)) (str_or_none_lem other_final)))
    where
      other : Value
      other = or_else (or_else (get "text" raw) (get "transcription" raw)) (get "hypothesis" raw)

      other_final : Value
      other_final = or_else (get "final_transcript" raw) (get "final" raw)
