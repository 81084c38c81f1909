-- ===== src/Tabs/Tests.antt =====
-- Two documents whose headings are their lines, with a hash of the number of open documents.
use personal_productivity_ai.Common.{
  ◌≡◌, refl, sym, ap, ◌∙◌, All, length, ℕ, zero, suc, ◌+◌, ◌==◌, List, [], ◌∷◌, map, if◌then◌else◌,
  arith,
}
use personal_productivity_ai.Common.Text.{Text, codes}
use personal_productivity_ai.Common.Trim.{trim, is_empty}
use personal_productivity_ai.Workspace.{PathBuf}
use personal_productivity_ai.Tabs.{
  Hashes, title_of, new, tab_strip, heading_ids, Call, opens, shows_strip, asks_ids, drops_ids,
  writes, loads, calls,
}
use personal_productivity_ai.Tabs.Strip.{nothing, opened_by, taken, calls-tab_strip}
use personal_productivity_ai.Tabs.Headings.{IsDistinct, heading_ids-IsDistinct}

abbrev cons_line : ℕ → List Text → List Text
cons_line c [] = (c ∷ []) ∷ []
cons_line c (l ∷ ls) = (c ∷ l) ∷ ls

abbrev lines_of : Text → List Text
lines_of [] = []
lines_of (c ∷ t) = let rest = lines_of t in if c == 10 then [] ∷ rest else cons_line c rest

abbrev hashes : Hashes
hashes = record {
  hash_tabs = length;
  hash_text = λ text. 0;
  hash_toc = λ toc. 0;
  headings = lines_of;
  decimal = λ n. (48 + n) ∷ [];
}

decimal_injective : (a b : ℕ) → hashes.decimal a ≡ hashes.decimal b → a ≡ b
decimal_injective a b e = let g : 48 + a ≡ 48 + b = cc in omega arith

abbrev notes : PathBuf
notes = codes "docs" ∷ codes "notes.md" ∷ []

abbrev plan : PathBuf
plan = codes "docs" ∷ codes "plan.md" ∷ []

abbrev used : List Call
used =
    opens notes
    ∷ shows_strip
    ∷ opens plan
    ∷ opens notes
    ∷ loads plan (codes "a\na") []
    ∷ asks_ids
    ∷ shows_strip
    ∷ writes (notes ∷ [])
    ∷ drops_ids
    ∷ []

-- The lists that there are, by their length.
abbrev list_of : ℕ → List PathBuf
list_of zero = []
list_of (suc zero) = notes ∷ []
list_of (suc (suc n)) = notes ∷ plan ∷ []

abbrev IsListed : List PathBuf → Type 0
IsListed a = a ≡ list_of (length a)

tells : (a b : List PathBuf) → IsListed a → IsListed b → length a ≡ length b → a ≡ b
tells a b p q e = p ∙ ap list_of e ∙ sym q

used_lists : All IsListed (taken used nothing)
unfolding taken
used_lists = (refl, (refl, (refl, (refl, (refl, (refl, (refl, (refl, (refl, (refl, _))))))))))

-- A document whose tab the application took away itself is not opened again.
closed_run : opened_by (opens plan ∷ writes [] ∷ opens plan ∷ []) nothing ≡ []
unfolding opened_by
closed_run = refl

closed_strip_run :
    (calls hashes (opens plan ∷ writes [] ∷ opens plan ∷ []) (new {Yaml = ℕ})).tabs ≡ []
unfolding calls new
closed_strip_run = refl

opened_run : opened_by used nothing ≡ notes ∷ []
unfolding opened_by
opened_run = refl

calls-tab_strip_example :
    (tab_strip hashes (calls hashes used (new {Yaml = ℕ}))).0
    ≡ (opened_by used nothing, map title_of (opened_by used nothing))
calls-tab_strip_example = calls-tab_strip ℕ hashes IsListed used tells used_lists

heading_ids-IsDistinct_example :
    IsDistinct ((heading_ids hashes (calls hashes used (new {Yaml = ℕ}))).0)
unfolding trim
heading_ids-IsDistinct_example =
    heading_ids-IsDistinct hashes decimal_injective ℕ used _ ((refl, (refl, _)), _)

-- A heading that ends in `#1` gets the id of a second one without it.
clash_run :
    (heading_ids hashes (calls hashes (loads plan (codes "a\na\na#1") [] ∷ []) (new {Yaml = ℕ}))).0
    ≡ codes "a" ∷ codes "a#1" ∷ codes "a#1" ∷ []
unfolding calls heading_ids new is_empty
clash_run = refl
