-- ===== src/Cursor/Walk.antt =====
-- The pages of src/agent/tools/cursor.rs, put together.
use personal_productivity_ai.Common.{
  ℕ, zero, suc, ◌+◌, ◌≤◌, ◌<◌, ◌≡◌, refl, ap, sym, subst, inl, inr, Option, none, some, List,
  length, drop, min, arith, [], ◌∷◌, ◌↔◌, Option-cases, Bool-cases, leb→le, true, ◌==◌, ◌==◌, leb,
}
use personal_productivity_ai.Common.Text.{Text}
use personal_productivity_ai.Cursor.{
  CursorPage, PagedDataset, SessionCache, Manager, ok, err, slice, create_session, serve_page,
  next_page, follow, follow_page, all_pages,
}
use personal_productivity_ai.Cursor.Slices.{slice-append-drop, slice_end, length-slice}
use personal_productivity_ai.Cursor.Sessions.{IsSound}

nil_of_length {ℓ} : {A : Type ℓ} (xs : List A) → (length xs == 0) ≡ true → some [] ≡ some xs
nil_of_length [] h = refl
nil_of_length (x ∷ xs) h = absurd (ground arith)

module _ {ℓ} {T : Type ℓ} (c : SessionCache T) (m : Manager) where
  open c use {Store, get, insert, invalidate, sync}

  abbrev page_end : PagedDataset T → ℕ
  page_end d = min (d.cursor_offset + m.page_size) d.total

  abbrev page_of : PagedDataset T → Option Text → Option Text → CursorPage T
  page_of d cursor hint = record {
    items = slice d.items d.cursor_offset (page_end d);
    count = length (slice d.items d.cursor_offset (page_end d));
    cursor = cursor;
    total = d.total;
    hint = hint;
  }

  module _ (s : Store) (k : Text) (d : PagedDataset T) (found : get s k ≡ some d)
      (inside : d.cursor_offset < d.total) where
    next_page_last :
        d.total ≤ d.cursor_offset + m.page_size
        → next_page c m s k ≡ (ok (page_of d none (some m.final_page_hint)), sync (invalidate s k))
    unfolding next_page serve_page
    next_page_last h = rw (found, next_page) (ground arith)

    next_page_more :
        d.cursor_offset + m.page_size < d.total
        → next_page c m s k ≡ (
          ok (page_of d (some k) none),
          sync (
              insert s k (record { items = d.items; cursor_offset = page_end d; total = d.total })),
        )
    unfolding next_page serve_page
    next_page_more h = rw (found, next_page) (ground arith)

  -- From a sound cache, a known cursor always yields a page: not empty, of at most `page_size`
  -- items, which are the items from the session's offset on, with the true count and total, and
  -- with a cursor exactly when items remain behind it.
  pub next_page-Shows :
      (s : Store) (k : Text) (d : PagedDataset T)
      → IsSound c m s
      → 0 < m.page_size
      → get s k ≡ some d
      → (p : CursorPage T) × ((next_page c m s k).0 ≡ ok p)
        × (p.items ≡ slice d.items d.cursor_offset (d.cursor_offset + p.count))
        × (p.count ≡ length p.items)
        × (0 < p.count)
        × (p.count ≤ m.page_size)
        × (p.total ≡ length d.items)
        × ((p.cursor ≡ none) ↔ (d.cursor_offset + p.count ≡ p.total))
  next_page-Shows s k d v positive found =
      let f = v.at k d found in
      let n =
        length-slice d.cursor_offset (page_end d) d.items (omega (arith, f.inside))
          (omega (arith, f.counted)) in
      let whole =
        ap (slice d.items d.cursor_offset) {x = page_end d}
          {y = d.cursor_offset + length (slice d.items d.cursor_offset (page_end d))}
          (omega (arith, n, f.inside)) in
      elim (Bool-cases (leb d.total (d.cursor_offset + m.page_size))) [
        | inl last ↦ (
          page_of d none (some m.final_page_hint),
          ap (λ r. r.0) (next_page_last s k d found f.inside (leb→le _ _ last)),
          whole,
          refl,
          omega (arith, n, f.inside),
          omega (arith, n),
          f.counted,
          ((λ _. omega (arith, n, f.inside, leb→le _ _ last)), (λ _. refl)),
        )
        | inr more ↦
            let lt : d.cursor_offset + m.page_size < d.total = ground arith in
            (
              page_of d (some k) none,
              ap (λ r. r.0) (next_page_more s k d found f.inside lt),
              whole,
              refl,
              omega (arith, n, f.inside),
              omega (arith, n),
              f.counted,
              ((λ e. absurd (cc e)), (λ e. absurd (omega (arith, n, e)))),
            )
      ]

  forgotten : (s : Store) (k : Text) → get (sync (invalidate s k)) k ≡ none
  forgotten s k = elim (Option-cases (get (sync (invalidate s k)) k)) [
    | inl e ↦ e
    | inr (d, e) ↦ cc (c.get-invalidate_self s k, c.get-sync _ k d e)
  ]

  serve_page_closes :
      (s : Store) (k : Text) (d : PagedDataset T) (p : CursorPage T)
      → (serve_page c m s k d).0 ≡ ok p
      → p.cursor ≡ none
      → get (serve_page c m s k d).1 k ≡ none
  unfolding serve_page
  serve_page_closes s k d p h e = ground (arith, forgotten s k)

  next_page-none :
      (s : Store) (k : Text) → get s k ≡ none → next_page c m s k ≡ (err m.expired_error, s)
  unfolding next_page
  next_page-none s k e = rw (e, next_page)

  next_page-some :
      (s : Store) (k : Text) (d : PagedDataset T)
      → get s k ≡ some d
      → next_page c m s k ≡ serve_page c m s k d
  unfolding next_page
  next_page-some s k d e = rw (e, next_page)

  -- A page without a cursor is the last one: its session is gone, so the cursor is refused after it.
  pub last_page_closes :
      (s : Store) (k : Text) (p : CursorPage T)
      → (next_page c m s k).0 ≡ ok p
      → p.cursor ≡ none
      → next_page c m (next_page c m s k).1 k ≡ (err m.expired_error, (next_page c m s k).1)
  last_page_closes s k p h e = elim (Option-cases (get s k)) [
    | inl missing ↦ absurd (cc (h, next_page-none s k missing))
    | inr (d, found) ↦ next_page-none _ k (
        subst (λ r. get r.1 k ≡ none) (sym (next_page-some s k d found))
          (serve_page_closes s k d p (subst (λ r. r.0 ≡ ok p) (next_page-some s k d found) h) e))
  ]

  module _
      (retained : (s : Store) (k : Text) (d : PagedDataset T)
        → get (sync (insert s k d)) k ≡ some d)
      (positive : 0 < m.page_size) (items : List T) where
    follow-eq-drop :
        (fuel : ℕ) (s : Store) (k : Text) (o : ℕ)
        → get s k ≡ some (record { items = items; cursor_offset = o; total = length items })
        → o < length items
        → length items ≤ o + fuel
        → follow c fuel m s k ≡ some (drop o items)
    unfolding follow follow_page
    follow-eq-drop zero s k o h lt le = absurd (omega arith)
    follow-eq-drop (suc fuel) s k o h lt le =
        elim (Bool-cases (leb (length items) (o + m.page_size))) [
          | inl last ↦
              let e : min (o + m.page_size) (length items) ≡ length items = ground arith in
              rw (next_page_last s k _ h lt (leb→le _ _ last), e, slice_end) refl
          | inr more ↦
              let e : min (o + m.page_size) (length items) ≡ o + m.page_size = ground arith in
              rw
                (
                  next_page_more s k _ h lt (ground arith),
                  e,
                  follow-eq-drop fuel _ k (o + m.page_size) (retained s k _) (ground arith)
                      (omega arith),
                  slice-append-drop o (o + m.page_size) items (omega arith),
                )
                refl
        ]

    -- With a page size above 0 and a cache that has each session right after it was stored: to create
    -- a session and follow its cursors, for at most as many pages as there are items, ends, and gives
    -- all the items once and in order.
    pub all_pages-eq :
        (fuel : ℕ) (s : Store) (uuid : Text)
        → length items ≤ fuel
        → all_pages c fuel m s items uuid ≡ some items
    unfolding all_pages create_session
    all_pages-eq fuel s uuid h = elim (Bool-cases (length items == 0)) [
      | inl e ↦ rw e (nil_of_length items e)
      | inr ne ↦ elim (Bool-cases (leb (length items) m.page_size)) [
        | inl one ↦ rw (ne, one)
        | inr many ↦ rw (
          ne,
          many,
          follow-eq-drop fuel _ _ m.page_size (retained s _ _) (ground arith) (omega arith),
          slice-append-drop 0 m.page_size items (omega arith),
        )
      ]
    ]
