-- ===== src/Cursor/Sessions.antt =====
-- What every operation of src/agent/tools/cursor.rs keeps true of the sessions, and what the pages
-- show.
use mathlib.Core.Bool.{false≢true}
use personal_productivity_ai.Common.{
  [], ◌∷◌, ◌+◌, sym, ◌∙◌, subst, ◌≤◌, ◌<◌, ◌≡◌, refl, inl, inr, some, List, length, min, arith,
  Option-cases, Bool-cases, ◌==◌, leb,
}
use personal_productivity_ai.Common.Text.{Text, text_eq, text_eq_iff}
use personal_productivity_ai.Cursor.{
  PagedDataset, SessionCache, Manager, create_session, serve_page, next_page, forget, Call, create,
  next, drop_cursor, step, run,
}

-- The stored total is the number of items, and the next page is neither the first nor empty.
pub record Fits {ℓ} {T : Type ℓ} (m : Manager) (d : PagedDataset T) : Type 0 where
  pub counted : d.total ≡ length d.items
  pub past_first : m.page_size ≤ d.cursor_offset
  pub inside : d.cursor_offset < d.total

module _ {ℓ} {T : Type ℓ} (c : SessionCache T) (m : Manager) where
  open c use {Store, get, insert, invalidate, sync}

  pub record IsSound (s : Store) : Type ℓ where
    pub at : (k : Text) (d : PagedDataset T) → get s k ≡ some d → Fits m d

  insert-IsSound :
      (s : Store) (k : Text) (d : PagedDataset T)
      → Fits m d
      → IsSound s
      → IsSound (sync (insert s k d))
  insert-IsSound s k d f v = record {
    at = λ j e h. elim (Bool-cases (text_eq k j)) [
      | inl same ↦
          let g = c.get-sync _ j e h in
          let e' = (text_eq_iff k j).0 same in
          subst (Fits m)
            (sym
              (c.eq_of_get-insert s k d e (subst (λ i. get (insert s k d) i ≡ some e) (sym e') g)))
            f
      | inr other ↦ v.at j e (
          c.get-insert_ne s k j d e (λ x. false≢true (sym other ∙ (text_eq_iff k j).1 x))
            (c.get-sync _ j e h))
    ];
  }

  invalidate-IsSound : (s : Store) (k : Text) → IsSound s → IsSound (sync (invalidate s k))
  invalidate-IsSound s k v = record {
    at = λ j e h. v.at j e (c.get-invalidate_some s k j e (c.get-sync _ j e h));
  }

  create_session-IsSound :
      (s : Store) (items : List T) (uuid : Text)
      → IsSound s
      → IsSound (create_session c m s items uuid).1
  unfolding create_session
  create_session-IsSound s items uuid v = elim (Bool-cases (length items == 0)) [
    | inl h ↦ rw h v
    | inr h ↦ elim (Bool-cases (leb (length items) m.page_size)) [
      | inl k ↦ rw (h, k) v
      | inr k ↦
          rw (h, k)
            (insert-IsSound s _ _
              (record { counted = refl; past_first = ground arith; inside = ground arith }) v)
    ]
  ]

  serve_page-IsSound :
      (s : Store) (cursor : Text) (d : PagedDataset T)
      → Fits m d
      → IsSound s
      → IsSound (serve_page c m s cursor d).1
  unfolding serve_page
  serve_page-IsSound s cursor d f v = elim (Bool-cases (leb d.total d.cursor_offset)) [
    | inl h ↦ rw h (invalidate-IsSound s cursor v)
    | inr h ↦ elim (Bool-cases (leb d.total (min (d.cursor_offset + m.page_size) d.total))) [
      | inl k ↦ rw (h, k) (invalidate-IsSound s cursor v)
      | inr k ↦
          rw (h, k)
            (insert-IsSound s cursor _
              (record {
                counted = f.counted;
                past_first = omega (arith, f.past_first, f.inside);
                inside = ground arith;
              })
              v)
    ]
  ]

  next_page-IsSound : (s : Store) (cursor : Text) → IsSound s → IsSound (next_page c m s cursor).1
  unfolding next_page
  next_page-IsSound s cursor v = elim (Option-cases (get s cursor)) [
    | inl h ↦ rw (h, next_page) v
    | inr (d, h) ↦ rw (h, next_page) (serve_page-IsSound s cursor d (v.at cursor d h) v)
  ]

  forget-IsSound : (s : Store) (cursor : Text) → IsSound s → IsSound (forget c s cursor)
  unfolding forget
  forget-IsSound s cursor v = invalidate-IsSound s cursor v

  -- Whatever is called, from a sound cache, leaves a sound cache: each session's total is the number
  -- of its items, and its next page starts behind the first page and before the end.
  pub run-IsSound : (calls : List (Call T)) (s : Store) → IsSound s → IsSound (run c m calls s)
  unfolding run step
  run-IsSound [] s v = v
  run-IsSound (create items uuid ∷ calls) s v =
      run-IsSound calls _ (create_session-IsSound s items uuid v)
  run-IsSound (next cursor ∷ calls) s v = run-IsSound calls _ (next_page-IsSound s cursor v)
  run-IsSound (drop_cursor cursor ∷ calls) s v = run-IsSound calls _ (forget-IsSound s cursor v)
