-- ===== src/Cursor.antt =====
-- Cursor sessions for paginated tool results: src/agent/tools/cursor.rs.
-- The `mini_moka` cache behind a manager is a parameter (`SessionCache`): it may forget an entry at
-- any time (expiry, eviction), and what it returns is what was written last under that key. Vector
-- lengths and offsets stay far below 2^64 and do not wrap.
pub mod Slices
pub mod Sessions
pub mod Walk
mod Tests
use mathlib.Core.Option
use personal_productivity_ai.Common.{
  ◌∷◌, zero, suc, ℕ, ◌+◌, ◌-◌, ◌≤◌, ◌<◌, min, ◌≡◌, ◌≢◌, Option, none, some, List, [], length, take,
  drop, ltb, leb, ◌==◌, if◌then◌else◌, ◌++◌,
}
use personal_productivity_ai.Common.Text.{Text, codes}

-- One page of results, as a tool returns it.
pub record CursorPage {ℓ} (T : Type ℓ) : Type ℓ where
  pub items : List T
  pub count : ℕ
  pub cursor : Option Text
  pub total : ℕ
  pub hint : Option Text

-- What a session remembers: all items, and the offset of the next page.
pub record PagedDataset {ℓ} (T : Type ℓ) : Type ℓ where
  pub items : List T
  pub cursor_offset : ℕ
  pub total : ℕ

-- The cache of the `mini_moka` crate, with what its documentation promises.
pub record SessionCache {ℓ} (T : Type ℓ) : Type (ℓ ⊔ 1) where
  pub Store : Type 0
  pub get : Store → Text → Option (PagedDataset T)
  pub insert : Store → Text → PagedDataset T → Store
  pub invalidate : Store → Text → Store
  pub sync : Store → Store
  pub entry_count : Store → ℕ
  pub eq_of_get-insert :
      (s : Store) (k : Text) (d e : PagedDataset T) → get (insert s k d) k ≡ some e → e ≡ d
  pub get-insert_ne :
      (s : Store) (k j : Text) (d e : PagedDataset T)
      → k ≢ j
      → get (insert s k d) j ≡ some e
      → get s j ≡ some e
  pub get-invalidate_self : (s : Store) (k : Text) → get (invalidate s k) k ≡ none
  pub get-invalidate_some :
      (s : Store) (k j : Text) (e : PagedDataset T)
      → get (invalidate s k) j ≡ some e
      → get s j ≡ some e
  pub get-sync :
      (s : Store) (j : Text) (e : PagedDataset T) → get (sync s) j ≡ some e → get s j ≡ some e

-- The fields of a `CursorSessionManager` beside its cache.
pub record Manager : Type 0 where
  pub page_size : ℕ
  pub final_page_hint : Text
  pub expired_error : Text

pub data Result {ℓ} (A : Type ℓ) : Type ℓ where
  ok : A → Result A
  err : Text → Result A

-- `&items[lo..hi]`
unfoldable pub slice {ℓ} : {A : Type ℓ} → List A → ℕ → ℕ → List A
slice items lo hi = take (hi - lo) (drop lo items)

-- `format!("c_{}", &uuid.simple().to_string()[..8])`
pub cursor_of : Text → Text
cursor_of uuid = codes "c_" ++ take 8 uuid

-- The calls that a tool makes of its manager.
pub data Call {ℓ} (T : Type ℓ) : Type ℓ where
  create : List T → Text → Call T
  next : Text → Call T
  drop_cursor : Text → Call T

module _ {ℓ} {T : Type ℓ} (c : SessionCache T) where
  open c use {Store, get, insert, invalidate, sync, entry_count}

  -- `uuid` is what the generator returns.
  pub create_session : Manager → Store → List T → Text → CursorPage T × Store
  unfolding slice
  create_session m s items uuid =
      let total = length items in
      if total == 0
      then (
        record { items = []; count = 0; cursor = none; total = 0; hint = some m.final_page_hint },
        s,
      )
      else if leb total m.page_size
      then (
        record {
          items = items;
          count = total;
          cursor = none;
          total = total;
          hint = some m.final_page_hint;
        },
        s,
      )
      else (
        record {
          items = slice items 0 m.page_size;
          count = length (slice items 0 m.page_size);
          cursor = some (cursor_of uuid);
          total = total;
          hint = none;
        },
        sync (
            insert s (cursor_of uuid)
              (record { items = items; cursor_offset = m.page_size; total = total })),
      )

  -- The part of `next_page` behind the lookup.
  pub serve_page : Manager → Store → Text → PagedDataset T → Result (CursorPage T) × Store
  unfolding slice
  serve_page m s cursor entry =
      let offset = entry.cursor_offset in
      let end = min (offset + m.page_size) entry.total in
      let page = slice entry.items offset end in
      if leb entry.total offset
      then (err m.expired_error, sync (invalidate s cursor))
      else if leb entry.total end
      then (
        ok (record {
          items = page;
          count = length page;
          cursor = none;
          total = entry.total;
          hint = some m.final_page_hint;
        }),
        sync (invalidate s cursor),
      )
      else (
        ok (record {
          items = page;
          count = length page;
          cursor = some cursor;
          total = entry.total;
          hint = none;
        }),
        sync (
            insert s cursor
              (record { items = entry.items; cursor_offset = end; total = entry.total })),
      )

  pub next_page : Manager → Store → Text → Result (CursorPage T) × Store
  next_page m s cursor = elim (get s cursor) [
    | none ↦ (err m.expired_error, s)
    | some entry ↦ serve_page m s cursor entry
  ]

  -- `invalidate`, the method of the manager.
  pub forget : Store → Text → Store
  forget s cursor = sync (invalidate s cursor)

  pub len : Store → ℕ
  len s = entry_count (sync s)

  -- The cache after one call, and after a history of calls.
  pub step : Manager → Call T → Store → Store
  unfolding create_session next_page forget
  step m (create items uuid) s = (create_session m s items uuid).1
  step m (next cursor) s = (next_page m s cursor).1
  step m (drop_cursor cursor) s = forget s cursor

  pub run : Manager → List (Call T) → Store → Store
  run m [] s = s
  run m (call ∷ calls) s = run m calls (step m call s)

  pub follow_page :
      (Store → Text → Option (List T)) → Result (CursorPage T) × Store → Option (List T)
  follow_page again (err e, s) = none
  follow_page again (ok page, s) = elim page.cursor [
    | none ↦ some page.items
    | some k ↦ Option.map (λ rest. page.items ++ rest) (again s k)
  ]

  -- A client that follows a cursor to the end, at most `fuel` pages: the items that it received, or
  -- `none` if a page failed or the pages did not end.
  pub follow : ℕ → Manager → Store → Text → Option (List T)
  unfolding follow_page
  follow zero m s cursor = none
  follow (suc fuel) m s cursor = follow_page (follow fuel m) (next_page m s cursor)

  -- All pages of a fresh result set, from the first on.
  pub all_pages : ℕ → Manager → Store → List T → Text → Option (List T)
  unfolding follow_page
  all_pages fuel m s items uuid =
      let (page, s') = create_session m s items uuid in follow_page (follow fuel m) (ok page, s')
