-- ===== src/Text/Features/Phrases.antt =====
-- code/ai-gateway/modules/text/features.py, `_keyphrases`: the phrases of a text.
use diplom_code.Base.{
  string_eq, ◌≡◌, refl, ℕ, zero, suc, ◌≤◌, String, Bool, true, false, List, [], ◌∷◌, inl, inr,
  Bool-cases, length, All, contains, filter, ltb, length_text, arith, ◌==◌, ◌||◌,
}
use diplom_code.Py.{Runtime}
use diplom_code.Text.Features.{keyphrases, new_words, long_words, split_words}

module _ ⦃rt : Runtime⦄ where
  open rt use {lower}

  -- No two of them are the same in lower case.
  abbrev pub DistinctLower : List String → Type 0
  DistinctLower [] = Unit {0}
  DistinctLower (w ∷ ws) = All (λ x. (lower w == lower x) ≡ false) ws × DistinctLower ws

  abbrev Long : String → Type 0
  Long w = ltb 2 (length_text w) ≡ true

  abbrev Fresh : List String → String → Type 0
  Fresh seen w = contains (lower w) seen ≡ false

  All-map :
      {P Q : String → Type 0} (f : (w : String) → P w → Q w) (ws : List String)
      → All P ws
      → All Q ws
  All-map f [] h = tt
  All-map f (w ∷ ws) (p, h) = (f w p, All-map f ws h)

  filter-Long : (ws : List String) → All Long (filter (λ x. ltb 2 (length_text x)) ws)
  filter-Long [] = tt
  filter-Long (w ∷ ws) = elim (Bool-cases (ltb 2 (length_text w))) [
    | inl long ↦ rw long (long, filter-Long ws)
    | inr short ↦ rw short (filter-Long ws)
  ]

  or_left : (a b : Bool) → (a || b) ≡ false → a ≡ false
  or_left true b h = h
  or_left false b h = refl

  or_right : (a b : Bool) → (a || b) ≡ false → b ≡ false
  or_right true b h = cc
  or_right false b h = h

  -- What the loop keeps up.
  abbrev Phrases : ℕ → List String → List String → Type 0
  Phrases left seen out =
      (length out ≤ left) × DistinctLower out × All Long out × All (Fresh seen) out

  new_words-Phrases :
      (left : ℕ) (seen ws : List String) → All Long ws → Phrases left seen (new_words left seen ws)
  unfolding new_words
  new_words-Phrases zero seen ws h = (omega arith, tt, tt, tt)
  new_words-Phrases (suc left) seen [] h = (omega arith, tt, tt, tt)
  new_words-Phrases (suc left) seen (w ∷ ws) (long, h) =
      elim (Bool-cases (contains (lower w) seen)) [
        | inl known ↦ rw (known, new_words) (new_words-Phrases (suc left) seen ws h)
        | inr fresh ↦
            let (few, distinct, all_long, all_fresh) =
              new_words-Phrases left (lower w ∷ seen) ws h in
            rw (fresh, new_words)
              (
                omega (arith, few),
                (All-map (λ x f. or_left (lower w == lower x) _ f) _ all_fresh, distinct),
                (long, all_long),
                (fresh, All-map (λ x f. or_right (lower w == lower x) _ f) _ all_fresh),
              )
      ]

  -- The key phrases of a text are at most eight, longer than two characters, and no two of them
  -- are the same in lower case.
  pub keyphrases_lem :
      (text : String)
      → (length (keyphrases text) ≤ 8)
        × DistinctLower (keyphrases text)
        × All Long (keyphrases text)
  unfolding keyphrases long_words
  keyphrases_lem text =
      let (w, ws) = split_words text in
      let (few, distinct, all_long, _) =
        new_words-Phrases 8 [] (long_words text) (filter-Long (w ∷ ws)) in
      (few, distinct, all_long)
