-- ===== src/Enrichment/Coref/Applied.antt =====
-- apply_substitutions replaces parts of the text that do not overlap, and skips no part it could take.
mod Loop
pub mod Whole
use lens_lm.Base.{
  ℕ, zero, suc, ◌+◌, ◌-◌, ◌≤◌, ◌<◌, ◌≡◌, refl, sym, ◌∙◌, ap, ◌⊎◌, inl, inr, Bool, true, false,
  Bool-cases, ◌&&◌, Option, none, some, Option-cases, List, [], ◌∷◌, ◌++◌, append_assoc, take, drop,
  length, All, take-append-drop, ltb, if◌then◌else◌, arith,
}
use lens_lm.Base.Text.{
  Str, byte_len, byte_len-append, slice, slice-append, str_eq, str_eq_sound, str_eq_refl,
}
use lens_lm.Citation.Markers.{trim}
use lens_lm.Enrichment.Coref.{
  CorefSub, codepoint_range_to_bytes, replace_range, is_blank, is_allowed, is_valid_sub,
}
use lens_lm.Enrichment.Coref.Offsets.{
  InRange, codepoint_range_to_bytes-take, codepoint_range_to_bytes-InRange, take-split,
  replace_range-append,
}

-- The characters from `i` to `j`.
abbrev pub part : Str → ℕ → ℕ → Str
part text i j = take (j - i) (drop i text)

module _ (text : Str) where
  -- The text from `i` on, with each range replaced by its antecedent.
  abbrev pub splice : ℕ → List CorefSub → Str
  splice i [] = drop i text
  splice i (c ∷ cs) = part text i c.char_start ++ (c.antecedent ++ splice c.char_end cs)

  -- The ranges stand in order behind `i`, and do not overlap.
  abbrev pub IsOrdered : ℕ → List CorefSub → Type 0
  IsOrdered i [] = Unit
  IsOrdered i (c ∷ cs) =
      (i ≤ c.char_start) × InRange text c.char_start c.char_end × IsOrdered c.char_end cs

  text_parts : (i j : ℕ) → i ≤ j → take j text ≡ take i text ++ part text i j
  text_parts i j h = take-split i j text h

  splice-split :
      (e : ℕ) (cs : List CorefSub) → IsOrdered e cs → splice 0 cs ≡ take e text ++ splice e cs
  splice-split e [] h = sym (take-append-drop e text)
  splice-split e (c ∷ cs) (le, range, h) =
      let z : c.char_start - 0 ≡ c.char_start = omega arith in
      rw (z, text_parts e c.char_start le) (append_assoc (take e text) _ _)

  range_bytes :
      (i j : ℕ) → i ≤ j → byte_len (take j text) ≡ byte_len (take i text) + byte_len (part text i j)
  range_bytes i j h = ap byte_len (text_parts i j h) ∙ byte_len-append (take i text) (part text i j)

  -- One more replacement, before the others.
  pub replace_range-splice :
      (c : CorefSub) (cs : List CorefSub)
      → InRange text c.char_start c.char_end
      → IsOrdered c.char_end cs
      → replace_range
          (splice 0 cs)
          (byte_len (take c.char_start text))
          (byte_len (take c.char_end text))
          c.antecedent
        ≡ some (splice 0 (c ∷ cs))
  replace_range-splice c cs (le, fits) h =
      let z : c.char_start - 0 ≡ c.char_start = omega arith in
      let whole : splice 0 cs
          ≡ take c.char_start text ++ (part text c.char_start c.char_end ++ splice c.char_end cs) =
        splice-split c.char_end cs h
        ∙ ap (λ (t : Str). t ++ splice c.char_end cs) (text_parts c.char_start c.char_end le)
        ∙ append_assoc (take c.char_start text) _ _ in
      rw (whole, range_bytes c.char_start c.char_end le, z)
        (replace_range-append (take c.char_start text) (part text c.char_start c.char_end)
          (splice c.char_end cs) c.antecedent)

  -- A slice between two characters.
  slice-part :
      (i j : ℕ)
      → InRange text i j
      → slice text (byte_len (take i text)) (byte_len (take j text)) ≡ some (part text i j)
  slice-part i j (le, fits) =
      let whole : text ≡ take i text ++ (part text i j ++ drop j text) =
        sym (take-append-drop j text)
        ∙ ap (λ (t : Str). t ++ drop j text) (text_parts i j le)
        ∙ append_assoc (take i text) (part text i j) (drop j text) in
      ap (λ (t : Str). slice t (byte_len (take i text)) (byte_len (take j text))) whole
      ∙ rw (range_bytes i j le) (slice-append (take i text) (part text i j) (drop j text))

module _ (lowercase : Str → Str) (text : Str) (allowed : List Str) where
  -- The mention stands in the text at its range, and the antecedent is one of those allowed.
  abbrev pub Genuine : CorefSub → Type 0
  Genuine c =
      InRange text c.char_start c.char_end
      × (part text c.char_start c.char_end ≡ c.mention)
      × (is_allowed lowercase allowed c ≡ true)
      × (is_blank (trim c.antecedent) ≡ false)

  pub Genuine-is_valid_sub :
      (c : CorefSub) → Genuine c → is_valid_sub lowercase text allowed c ≡ some true
  unfolding is_valid_sub
  Genuine-is_valid_sub c (range, same, allows, blank) =
      rw
        (
          blank,
          is_valid_sub,
          codepoint_range_to_bytes-take text c.char_start c.char_end range,
          slice-part text c.char_start c.char_end range,
          same,
          str_eq_refl c.mention,
          allows,
        )
        refl

  -- The test does not panic, and passes genuine substitutions alone.
  pub is_valid_sub-Genuine :
      (c : CorefSub)
      → (is_valid_sub lowercase text allowed c ≡ some false)
        ⊎ ((is_valid_sub lowercase text allowed c ≡ some true) × Genuine c)
  unfolding is_valid_sub
  is_valid_sub-Genuine c = elim (Bool-cases (is_blank (trim c.antecedent))) [
    | inl b ↦ inl (rw (b, is_valid_sub) refl)
    | inr b ↦ elim (Option-cases (codepoint_range_to_bytes text c.char_start c.char_end)) [
      | inl e ↦ inl (rw (b, is_valid_sub, e) refl)
      | inr (r, e) ↦
          let range = codepoint_range_to_bytes-InRange text c.char_start c.char_end r e in
          let bytes = codepoint_range_to_bytes-take text c.char_start c.char_end range in
          let cut = slice-part text c.char_start c.char_end range in
          elim (Bool-cases (str_eq (part text c.char_start c.char_end) c.mention)) [
            | inr f ↦ inl (rw (b, is_valid_sub, bytes, cut, f) refl)
            | inl f ↦ elim (Bool-cases (is_allowed lowercase allowed c)) [
              | inr g ↦ inl (rw (b, is_valid_sub, bytes, cut, f, g) refl)
              | inl g ↦
                  inr
                    (rw (b, is_valid_sub, bytes, cut, f, g) refl, (range, str_eq_sound _ _ f, g, b))
            ]
          ]
    ]
  ]
