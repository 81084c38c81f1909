-- ===== src/Tabs/Headings.antt =====
-- The ids of headings are distinct where no heading has a `#`: src/app/ui/tabs.rs
use personal_productivity_ai.Common.{
  ◌≡◌, ◌≢◌, refl, sym, ap, subst, ℕ, zero, suc, ◌≤◌, ◌<◌, Bool, true, false, ◌||◌, Option, none,
  some, List, [], ◌∷◌, ◌++◌, All, ◌==◌, Bool-cases, inl, inr, arith,
}
use personal_productivity_ai.Common.Text.{Text, text_eq_self}
use personal_productivity_ai.Common.Trim.{trim, is_empty}
use personal_productivity_ai.Workspace.{PathBuf, contains, insert}
use personal_productivity_ai.Tabs.{
  Hashes, seen, id_of, ids_from, Tabs, new, open_tab, close_tab, invalidate_tab_strip_cache,
  tab_strip, heading_ids, toc_arc, clear_content, invalidate_heading_ids_cache, fresh_of, Call,
  opens, closes, shows_strip, asks_ids, asks_toc, clears, drops_ids, writes, loads, call, calls,
}

abbrev pub has_hash : Text → Bool
has_hash [] = false
has_hash (c ∷ t) = c == 35 || has_hash t

abbrev pub IsDistinct : List Text → Type 0
IsDistinct [] = Unit
IsDistinct (t ∷ texts) = All (λ (u : Text). t ≢ u) texts × IsDistinct texts

has_hash-append : (t d : Text) → has_hash (t ++ 35 ∷ d) ≡ true
has_hash-append [] d = ground arith
has_hash-append (c ∷ t) d = ground (arith, has_hash-append t d)

-- What is before the first `#` and what is behind it.
parts_eq :
    (t u d e : Text)
    → has_hash t ≡ false
    → has_hash u ≡ false
    → t ++ 35 ∷ d ≡ u ++ 35 ∷ e
    → (t ≡ u) × (d ≡ e)
parts_eq [] [] d e g h k = (refl, cc)
parts_eq [] (c ∷ u) d e g h k = let same : 35 ≡ c = cc in absurd (ground (arith, same))
parts_eq (c ∷ t) [] d e g h k = let same : c ≡ 35 = cc in absurd (ground (arith, same))
parts_eq (c ∷ t) (b ∷ u) d e g h k =
    let ih = parts_eq t u d e (ground arith) (ground arith) cc in
    let same : c ≡ b = cc in (rw (same, ih.0) refl, ih.1)

module _ (h : Hashes) (injective : (a b : ℕ) → h.decimal a ≡ h.decimal b → a ≡ b) where
  id_of-injective :
      (t u : Text) (n m : ℕ)
      → has_hash t ≡ false
      → has_hash u ≡ false
      → id_of h t n ≡ id_of h u m
      → (t ≡ u) × (n ≡ m)
  unfolding id_of
  id_of-injective t u zero zero g k e = (e, refl)
  id_of-injective t u zero (suc m) g k e = absurd (
      let a = has_hash-append u (h.decimal (suc m)) in
      let b : has_hash (u ++ 35 ∷ h.decimal (suc m)) ≡ false =
        subst (λ s. has_hash s ≡ false) e g in
      cc)
  id_of-injective t u (suc n) zero g k e = absurd (
      let a = has_hash-append t (h.decimal (suc n)) in
      let b : has_hash (t ++ 35 ∷ h.decimal (suc n)) ≡ false =
        subst (λ s. has_hash s ≡ false) (sym e) k in
      cc)
  id_of-injective t u (suc n) (suc m) g k e =
      let p = parts_eq t u (h.decimal (suc n)) (h.decimal (suc m)) g k e in
      (p.0, injective (suc n) (suc m) (p.1))

  seen-cons : (t u : Text) (before : List Text) → seen before t ≤ seen (u ∷ before) t
  unfolding seen
  seen-cons t u before = ground arith

  seen_self : (t : Text) (before : List Text) → seen before t < seen (t ∷ before) t
  unfolding seen
  seen_self t before = rw (text_eq_self t) (omega arith)

  -- An id whose count was passed is not given again.
  ids_from-absent :
      (t : Text) (n : ℕ) (before texts : List Text)
      → has_hash t ≡ false
      → n < seen before t
      → All (λ (u : Text). has_hash (trim u) ≡ false) texts
      → All (λ (u : Text). id_of h t n ≢ u) (ids_from h before texts)
  unfolding ids_from
  ids_from-absent t n before [] g k a = _
  ids_from-absent t n before (u ∷ texts) g k a = elim (Bool-cases (is_empty (trim u))) [
    | inl e ↦ rw e (ids_from-absent t n before texts g k (a.1))
    | inr e ↦ rw e (
      λ same.
          let p = id_of-injective t (trim u) n (seen before (trim u)) g (a.0) same in
          absurd (omega (arith, p.1, ap (seen before) (p.0))),
      ids_from-absent t n (trim u ∷ before) texts g (omega (arith, seen-cons t (trim u) before))
          (a.1),
    )
  ]

  ids_from-IsDistinct :
      (before texts : List Text)
      → All (λ (u : Text). has_hash (trim u) ≡ false) texts
      → IsDistinct (ids_from h before texts)
  unfolding ids_from
  ids_from-IsDistinct before [] a = _
  ids_from-IsDistinct before (t ∷ texts) a = elim (Bool-cases (is_empty (trim t))) [
    | inl e ↦ rw e (ids_from-IsDistinct before texts (a.1))
    | inr e ↦ rw e (
      ids_from-absent (trim t) (seen before (trim t)) (trim t ∷ before) texts (a.0)
          (seen_self (trim t) before) (a.1),
      ids_from-IsDistinct (trim t ∷ before) texts (a.1),
    )
  ]

  -- No heading of a document has a `#`.
  abbrev pub IsPlain : Text → Type 0
  IsPlain m = All (λ (u : Text). has_hash (trim u) ≡ false) (h.headings m)

  abbrev pub LoadsPlain : List Call → Type 0
  LoadsPlain [] = Unit
  LoadsPlain (opens p ∷ cs) = LoadsPlain cs
  LoadsPlain (closes p ∷ cs) = LoadsPlain cs
  LoadsPlain (shows_strip ∷ cs) = LoadsPlain cs
  LoadsPlain (asks_ids ∷ cs) = LoadsPlain cs
  LoadsPlain (asks_toc ∷ cs) = LoadsPlain cs
  LoadsPlain (clears ∷ cs) = LoadsPlain cs
  LoadsPlain (drops_ids ∷ cs) = LoadsPlain cs
  LoadsPlain (writes paths ∷ cs) = LoadsPlain cs
  LoadsPlain (loads p m toc ∷ cs) = IsPlain m × LoadsPlain cs

  abbrev OfCache : Option (ℕ × List Text) → Type 0
  OfCache none = Unit
  OfCache (some (hash, ids)) = IsDistinct ids

  fresh_of-IsDistinct :
      (hash : ℕ) (ids : List Text) (o : Option (ℕ × List Text))
      → IsDistinct ids
      → OfCache o
      → IsDistinct (fresh_of hash ids o)
  fresh_of-IsDistinct hash ids none d c = d
  fresh_of-IsDistinct hash ids (some (cached_hash, cached)) d c =
      elim (Bool-cases (cached_hash == hash)) [ inl e ↦ rw e c | inr e ↦ rw e d ]

  module _ {Yaml : Type 0} (empty : IsPlain []) where
    record HasIds (s : Tabs Yaml) : Type 0 where
      pub current : IsPlain (s.current_markdown)
      pub cached : OfCache (s.heading_ids_cache)

    heading_ids_lem : (s : Tabs Yaml) → HasIds s → IsDistinct ((heading_ids h s).0)
    unfolding heading_ids
    heading_ids_lem s i =
        fresh_of-IsDistinct _ _ (s.heading_ids_cache) (ids_from-IsDistinct [] _ (i.current))
          (i.cached)

    same_ids :
        (s s' : Tabs Yaml)
        → s.current_markdown ≡ s'.current_markdown
        → s.heading_ids_cache ≡ s'.heading_ids_cache
        → HasIds s
        → HasIds s'
    same_ids s s' e g i = record {
      current = rw (sym e) (i.current);
      cached = rw (sym g) (i.cached);
    }

    open_tab-HasIds : (p : PathBuf) (s : Tabs Yaml) → HasIds s → HasIds (open_tab p s)
    unfolding open_tab insert invalidate_tab_strip_cache
    open_tab-HasIds p s i = elim (Bool-cases (contains (s.tabs_set) p)) [
      | inl e ↦ rw e (same_ids s _ refl refl i)
      | inr e ↦ rw e (same_ids s _ refl refl i)
    ]

    close_tab-HasIds : (p : PathBuf) (s : Tabs Yaml) → HasIds s → HasIds (close_tab p s)
    unfolding close_tab invalidate_tab_strip_cache
    close_tab-HasIds p s i = elim (Bool-cases (contains (s.tabs_set) p)) [
      | inl e ↦ rw e (same_ids s _ refl refl i)
      | inr e ↦ rw e i
    ]

    calls-HasIds :
        (cs : List Call) (s : Tabs Yaml) → LoadsPlain cs → HasIds s → HasIds (calls h cs s)
    unfolding calls call tab_strip heading_ids toc_arc clear_content invalidate_heading_ids_cache
    calls-HasIds [] s l i = i
    calls-HasIds (opens p ∷ cs) s l i = calls-HasIds cs _ l (open_tab-HasIds p s i)
    calls-HasIds (closes p ∷ cs) s l i = calls-HasIds cs _ l (close_tab-HasIds p s i)
    calls-HasIds (shows_strip ∷ cs) s l i = calls-HasIds cs _ l (same_ids s _ refl refl i)
    calls-HasIds (asks_ids ∷ cs) s l i =
        calls-HasIds cs _ l (record { current = i.current; cached = heading_ids_lem s i })
    calls-HasIds (asks_toc ∷ cs) s l i = calls-HasIds cs _ l (same_ids s _ refl refl i)
    calls-HasIds (clears ∷ cs) s l i = calls-HasIds cs _ l (record { current = empty; cached = _ })
    calls-HasIds (drops_ids ∷ cs) s l i =
        calls-HasIds cs _ l (record { current = i.current; cached = _ })
    calls-HasIds (writes paths ∷ cs) s l i = calls-HasIds cs _ l (same_ids s _ refl refl i)
    calls-HasIds (loads p m toc ∷ cs) s (plain, l) i =
        calls-HasIds cs _ l (record { current = plain; cached = i.cached })

    new-HasIds : HasIds new
    unfolding new
    new-HasIds = record { current = empty; cached = _ }

  -- Where decimals differ for different numbers and no heading of a document that was loaded has a `#`,
  -- the ids of the headings are distinct after any calls, be they cached or not.
  pub heading_ids-IsDistinct :
      (Yaml : Type 0) (cs : List Call)
      → IsPlain []
      → LoadsPlain cs
      → IsDistinct ((heading_ids h (calls h cs (new {Yaml = Yaml}))).0)
  heading_ids-IsDistinct Yaml cs empty l =
      heading_ids_lem empty (calls h cs (new {Yaml = Yaml}))
        (calls-HasIds empty cs (new {Yaml = Yaml}) l (new-HasIds empty))
