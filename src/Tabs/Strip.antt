-- ===== src/Tabs/Strip.antt =====
-- The tab strip shows the open documents, whatever was cached: src/app/ui/tabs.rs
-- The application writes the public field `tabs` itself, past the set that `open_tab` and `close_tab` keep and
-- past the cache: src/app/command_executor.rs, src/app/orchestrator.rs.
use personal_productivity_ai.Common.{
  ◌≡◌, refl, sym, ap, ◌∙◌, subst, true, not, ◌&&◌, ◌||◌, ◌==◌, List, [], ◌∷◌, ◌++◌, map,
  if◌then◌else◌, Bool-cases, inl, inr, arith, All, ==_iff,
}
use personal_productivity_ai.Workspace.{
  PathBuf, path_eq, contains, insert, without, contains-without, contains-append,
}
use personal_productivity_ai.Tabs.{
  Tabs, Hashes, title_of, new, open_tab, close_tab, invalidate_tab_strip_cache, tab_strip,
  heading_ids, invalidate_heading_ids_cache, toc_arc, clear_content, Call, opens, closes,
  shows_strip, asks_ids, asks_toc, clears, drops_ids, writes, loads, call, calls,
}

-- The open documents, in the order in which they were opened, and those that a call opened and none closed.
pub record Open : Type 0 where
  pub paths : List PathBuf
  pub known : List PathBuf

-- A document that is known is not opened again, and one that is not is not closed.
unfoldable pub after : Call → Open → Open
unfolding contains without
after (opens p) o =
    if contains (o.known) p
    then o
    else record { paths = o.paths ++ p ∷ []; known = o.known ++ p ∷ [] }
after (closes p) o =
    if contains (o.known) p
    then record { paths = without p (o.paths); known = without p (o.known) }
    else o
after (writes paths) o = record { paths = paths; known = o.known }
after shows_strip o = o
after asks_ids o = o
after asks_toc o = o
after clears o = o
after drops_ids o = o
after (loads p text toc) o = o

unfoldable pub opened_by : List Call → Open → List PathBuf
unfolding after
opened_by [] o = o.paths
opened_by (c ∷ cs) o = opened_by cs (after c o)

-- The open documents before, between and after the calls.
unfoldable pub taken : List Call → Open → List (List PathBuf)
unfolding after
taken [] o = o.paths ∷ []
taken (c ∷ cs) o = o.paths ∷ taken cs (after c o)

abbrev pub nothing : Open
nothing = record { paths = []; known = [] }

module _ {Yaml : Type 0} (h : Hashes) (P : List PathBuf → Type 0)
    (tells : (a b : List PathBuf) → P a → P b → h.hash_tabs a ≡ h.hash_tabs b → a ≡ b) where
  -- The set has the known documents, and a valid cache shows the documents of its hash.
  record IsTabs (o : Open) (s : Tabs Yaml) : Type 0 where
    pub opened : s.tabs ≡ o.paths
    pub mirrored : (q : PathBuf) → contains (s.tabs_set) q ≡ contains (o.known) q
    pub cached :
        s.tab_strip_cache.valid ≡ true
        → P (s.tab_strip_cache.paths)
          × (s.tab_strip_cache.tabs_hash ≡ h.hash_tabs (s.tab_strip_cache.paths))
          × (s.tab_strip_cache.titles ≡ map title_of (s.tab_strip_cache.paths))

  same_strip :
      {o : Open} (s s' : Tabs Yaml)
      → s.tabs ≡ s'.tabs
      → s.tabs_set ≡ s'.tabs_set
      → s.tab_strip_cache ≡ s'.tab_strip_cache
      → IsTabs o s
      → IsTabs o s'
  same_strip s s' e g k i = record {
    opened = rw (sym e) (i.opened);
    mirrored = λ q. rw (sym g) (i.mirrored q);
    cached = λ v. rw (sym k) (i.cached (rw k v));
  }

  open_tab-IsTabs :
      (p : PathBuf) (o : Open) (s : Tabs Yaml)
      → IsTabs o s
      → IsTabs (after (opens p) o) (open_tab p s)
  unfolding open_tab insert invalidate_tab_strip_cache contains after
  open_tab-IsTabs p o s i = elim (Bool-cases (contains (s.tabs_set) p)) [
    | inl e ↦ rw (e, sym (i.mirrored p) ∙ e) i
    | inr e ↦
        rw (e, sym (i.mirrored p) ∙ e)
          (record {
            opened = ap (λ (l : List PathBuf). l ++ p ∷ []) (i.opened);
            mirrored =
                λ q. sym (contains-append (o.known) (p ∷ []) q ∙ ground (arith, i.mirrored q));
            cached = λ v. absurd cc;
          })
  ]

  close_tab-IsTabs :
      (p : PathBuf) (o : Open) (s : Tabs Yaml)
      → IsTabs o s
      → IsTabs (after (closes p) o) (close_tab p s)
  unfolding close_tab invalidate_tab_strip_cache after
  close_tab-IsTabs p o s i = elim (Bool-cases (contains (s.tabs_set) p)) [
    | inl e ↦
        rw (e, sym (i.mirrored p) ∙ e)
          (record {
            opened = ap (without p) (i.opened);
            mirrored = λ q.
                contains-without p q (s.tabs_set)
                ∙ ap (λ b. not (path_eq p q) && b) (i.mirrored q)
                ∙ sym (contains-without p q (o.known));
            cached = λ v. absurd cc;
          })
    | inr e ↦ rw (e, sym (i.mirrored p) ∙ e) i
  ]

  tab_strip_lem :
      (o : Open) (s : Tabs Yaml)
      → P (o.paths)
      → IsTabs o s
      → ((tab_strip h s).0 ≡ (o.paths, map title_of (o.paths))) × IsTabs o ((tab_strip h s).1)
  unfolding tab_strip
  tab_strip_lem o s p i =
      elim (Bool-cases (
        not (s.tab_strip_cache.valid)
        || not (s.tab_strip_cache.tabs_hash == h.hash_tabs (s.tabs)))) [
          | inl e ↦ rw e (
            ap (λ l. (l, map title_of l)) (i.opened),
            record {
              opened = i.opened;
              mirrored = i.mirrored;
              cached = λ v. (subst P (sym (i.opened)) p, refl, refl);
            },
          )
          | inr e ↦
              let (q, k, t) = i.cached (ground (arith, e)) in
              let same : s.tab_strip_cache.tabs_hash ≡ h.hash_tabs (s.tabs) =
                (==_iff _ _).0 (ground (arith, e)) in
              let shown : s.tab_strip_cache.paths ≡ o.paths =
                tells _ _ q p (sym k ∙ same ∙ ap (h.hash_tabs) (i.opened)) in
              rw e (rw t (ap (λ l. (l, map title_of l)) shown), i)
        ]

  calls-IsTabs :
      (cs : List Call) (o : Open) (s : Tabs Yaml)
      → All P (taken cs o)
      → IsTabs o s
      → (tab_strip h (calls h cs s)).0 ≡ (opened_by cs o, map title_of (opened_by cs o))
  unfolding opened_by taken after calls call heading_ids invalidate_heading_ids_cache toc_arc
      clear_content
  calls-IsTabs [] o s a i = (tab_strip_lem o s (a.0) i).0
  calls-IsTabs (opens p ∷ cs) o s a i = calls-IsTabs cs _ _ (a.1) (open_tab-IsTabs p o s i)
  calls-IsTabs (closes p ∷ cs) o s a i = calls-IsTabs cs _ _ (a.1) (close_tab-IsTabs p o s i)
  calls-IsTabs (shows_strip ∷ cs) o s a i =
      calls-IsTabs cs _ _ (a.1) ((tab_strip_lem o s (a.0) i).1)
  calls-IsTabs (asks_ids ∷ cs) o s a i = calls-IsTabs cs _ _ (a.1) (same_strip s _ refl refl refl i)
  calls-IsTabs (asks_toc ∷ cs) o s a i = calls-IsTabs cs _ _ (a.1) (same_strip s _ refl refl refl i)
  calls-IsTabs (clears ∷ cs) o s a i = calls-IsTabs cs _ _ (a.1) (same_strip s _ refl refl refl i)
  calls-IsTabs (drops_ids ∷ cs) o s a i =
      calls-IsTabs cs _ _ (a.1) (same_strip s _ refl refl refl i)
  calls-IsTabs (loads p text toc ∷ cs) o s a i =
      calls-IsTabs cs _ _ (a.1) (same_strip s _ refl refl refl i)
  calls-IsTabs (writes paths ∷ cs) o s a i =
      calls-IsTabs cs _ _ (a.1) (record { opened = refl; mirrored = i.mirrored; cached = i.cached })

  new-IsTabs : IsTabs nothing (new {Yaml = Yaml})
  unfolding new contains
  new-IsTabs = record { opened = refl; mirrored = λ q. refl; cached = λ v. absurd cc }

-- Where the hash tells apart the lists of open documents that there were, the strip shows the open
-- documents with their titles, after any calls on new tabs and whatever was cached. These are the list that
-- the application wrote last, if it did, with each document added behind it that was opened since and was
-- not known, and without each that was closed since and was known; a document is known from the call that
-- opened it to the one that closed it.
pub calls-tab_strip :
    (Yaml : Type 0) (h : Hashes) (P : List PathBuf → Type 0) (cs : List Call)
    → ((a b : List PathBuf) → P a → P b → h.hash_tabs a ≡ h.hash_tabs b → a ≡ b)
    → All P (taken cs nothing)
    → (tab_strip h (calls h cs (new {Yaml = Yaml}))).0
      ≡ (opened_by cs nothing, map title_of (opened_by cs nothing))
calls-tab_strip Yaml h P cs tells a =
    calls-IsTabs h P tells cs nothing (new {Yaml = Yaml}) a (new-IsTabs h P tells)
