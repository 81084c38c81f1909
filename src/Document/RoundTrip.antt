-- ===== src/Document/RoundTrip.antt =====
-- What `DocumentContent::parse` and `Display` of src/app/markdown/document.rs keep of a file.
use personal_productivity_ai.Common.{
  ◌≡◌, refl, sym, ap, subst, ◌∙◌, ◌⊎◌, inl, inr, true, ◌||◌, Option, none, some, [], ◌∷◌, ◌++◌,
  ◌==◌, append_assoc, arith, Bool-cases, Option-cases, All,
}
use personal_productivity_ai.Common.Text.{Text, is_prefix}
use personal_productivity_ai.Common.Trim.{
  is_whitespace, IsBlank, trim, is_empty, IsBlank-of_trim, eq_nil_of_is_empty,
}
use personal_productivity_ai.Common.Split.{split_once, split_once-append}
use personal_productivity_ai.Document.{
  FrontMatter, dashes, with_first, then_split, strip_bom, split_three, front_matter_of,
  parse_front_matter, parse, to_string,
}

-- White space, or the byte order mark.
abbrev pub IsSkipped : Text → Type 0
IsSkipped = All (λ c. (c == 0xfeff || is_whitespace c) ≡ true)

blank-IsSkipped : (s : Text) → IsBlank s → IsSkipped s
blank-IsSkipped [] h = tt
blank-IsSkipped (c ∷ s) h = (ground (arith, h.0), blank-IsSkipped s h.1)

IsSkipped-append : (s t : Text) → IsSkipped s → IsSkipped t → IsSkipped (s ++ t)
IsSkipped-append [] t h k = k
IsSkipped-append (c ∷ s) t h k = (h.0, IsSkipped-append s t h.1 k)

strip_bom_lem : (s : Text) → (m : Text) × (s ≡ m ++ strip_bom s) × IsSkipped m
unfolding strip_bom
strip_bom_lem [] = ([], refl, tt)
strip_bom_lem (c ∷ s) = elim (Bool-cases (c == 0xfeff)) [
  | inl e ↦ rw e (c ∷ [], refl, (ground (arith, e), tt))
  | inr e ↦ rw e ([], refl, tt)
]

with_first-some :
    (x rest a b c : Text) (o : Option (Text × Text))
    → split_once dashes rest ≡ o
    → with_first x o ≡ some (a, b, c)
    → (x ≡ a) × (rest ≡ b ++ (dashes ++ c))
with_first-some x rest a b c none e g = cc
with_first-some x rest a b c (some (y, z)) e g =
    (ground arith, ground (arith, split_once-append dashes rest y z e))

then_split-some :
    (s a b c : Text) (o : Option (Text × Text))
    → split_once dashes s ≡ o
    → then_split o ≡ some (a, b, c)
    → s ≡ a ++ (dashes ++ (b ++ (dashes ++ c)))
then_split-some s a b c none e g = cc
then_split-some s a b c (some (x, rest)) e g =
    let (p, q) = with_first-some x rest a b c (split_once dashes rest) refl g in
    rw (← p, ← q) (split_once-append dashes s x rest e)

split_three-append :
    (s a b c : Text) → split_three s ≡ some (a, b, c) → s ≡ a ++ (dashes ++ (b ++ (dashes ++ c)))
unfolding split_three
split_three-append s a b c h = then_split-some s a b c (split_once dashes s) refl h

nothing_skipped : (m t : Text) → IsSkipped m → is_prefix dashes (m ++ t) ≡ true → m ≡ []
unfolding is_prefix is_whitespace
nothing_skipped [] t s h = refl
nothing_skipped (c ∷ m) t s h = absurd (ground (arith, s.0, h))

module _ {Yaml : Type 0} (from_str : Text → Option Yaml) where
  front_matter_of-some :
      (o : Option (Text × Text × Text)) (fm : FrontMatter Yaml)
      → front_matter_of from_str o ≡ some fm
      → (a : Text) × (o ≡ some (a, fm.source, fm.body)) × IsBlank a
  unfolding front_matter_of
  front_matter_of-some none fm h = cc
  front_matter_of-some (some (a, b, c)) fm h = elim (Bool-cases (is_empty (trim a))) [
    | inl e ↦ (a, ground (arith, e), IsBlank-of_trim a (eq_nil_of_is_empty (trim a) e))
    | inr e ↦ absurd (ground (arith, e))
  ]

  parse_front_matter-some :
      (s : Text) (fm : FrontMatter Yaml)
      → parse_front_matter from_str s ≡ some fm
      → (m : Text) × (s ≡ m ++ (dashes ++ (fm.source ++ (dashes ++ fm.body)))) × IsSkipped m
  unfolding parse_front_matter
  parse_front_matter-some s fm h =
      let (a, e, blank) = front_matter_of-some (split_three (strip_bom s)) fm h in
      let (m, f, skipped) = strip_bom_lem s in
      (
        m ++ a,
        f
            ∙ ap (λ (t : Text). m ++ t) (split_three-append (strip_bom s) a fm.source fm.body e)
            ∙ sym (append_assoc m a _),
        IsSkipped-append m a skipped (blank-IsSkipped a blank),
      )

  no_front_matter :
      (raw : Text) → (parse from_str raw).front_matter ≡ none → to_string (parse from_str raw) ≡ raw
  unfolding parse to_string
  no_front_matter raw h = elim (Option-cases (parse_front_matter from_str (strip_bom raw))) [
    | inl e ↦ rw (e, parse)
    | inr (fm, e) ↦ absurd (cc (rw (e, parse) at h))
  ]

  -- A file is what its parsed content prints as, after a prefix that was skipped, which holds
  -- nothing but byte order marks and white space.
  pub parse-to_string :
      (raw : Text) → (m : Text) × (raw ≡ m ++ to_string (parse from_str raw)) × IsSkipped m
  unfolding parse to_string
  parse-to_string raw = elim (Option-cases (parse_front_matter from_str (strip_bom raw))) [
    | inl e ↦ rw (e, parse) ([], refl, tt)
    | inr (fm, e) ↦
        rw (e, parse)
          (let (m, f, s) = parse_front_matter-some (strip_bom raw) fm e in
            let (b, g, t) = strip_bom_lem raw in
            (
              b ++ m,
              g
                  ∙ ap (λ (x : Text). b ++ x) f
                  ∙ sym (append_assoc b m _)
                  ∙ ap (λ (x : Text). (b ++ m) ++ (dashes ++ x))
                      (sym (append_assoc fm.source dashes fm.body)),
              IsSkipped-append b m t s,
            ))
  ]

  -- A file that opens with `---`, or one without front matter, prints as it was.
  pub to_string-parse :
      (raw : Text)
      → (is_prefix dashes raw ≡ true) ⊎ ((parse from_str raw).front_matter ≡ none)
      → to_string (parse from_str raw) ≡ raw
  to_string-parse raw (inl h) =
      let (m, e, s) = parse-to_string raw in
      sym (
        e
        ∙ ap (λ (x : Text). x ++ to_string (parse from_str raw))
            (nothing_skipped m _ s (subst (λ (x : Text). is_prefix dashes x ≡ true) e h)))
  to_string-parse raw (inr h) = no_front_matter raw h
