-- ===== src/Cursor/Tests.antt =====
-- A cache that forgets nothing, and runs of src/agent/tools/cursor.rs over it.
use personal_productivity_ai.Common.{ℕ, ◌≡◌, some, List, [], ◌∷◌, length, arith}
use personal_productivity_ai.Common.Text.{Text, codes, text_eq_iff, text_eq_self}
use personal_productivity_ai.Common.Dict
use personal_productivity_ai.Common.Dict.{Dict, lookup-insert, lookup-remove}
use personal_productivity_ai.Cursor.{
  PagedDataset, SessionCache, Manager, all_pages, run, create, next, drop_cursor,
}
use personal_productivity_ai.Cursor.Sessions.{IsSound, run-IsSound}
use personal_productivity_ai.Cursor.Walk.{all_pages-eq}

abbrev memory : SessionCache ℕ
memory = record {
  Store = Dict (PagedDataset ℕ);
  get = λ s k. Dict.lookup k s;
  insert = λ s k d. Dict.insert k d s;
  invalidate = λ s k. Dict.remove k s;
  sync = λ s. s;
  entry_count = length;
  eq_of_get-insert = λ s k d e h. ground (arith, lookup-insert k k d s, text_eq_self k);
  get-insert_ne = λ s k j d e n h. ground (arith, lookup-insert k j d s, text_eq_iff k j);
  get-invalidate_self = λ s k. ground (arith, lookup-remove k k s, text_eq_self k);
  get-invalidate_some = λ s k j e h. ground (arith, lookup-remove k j s);
  get-sync = λ s j e h. h;
}

memory-retained :
    (s : Dict (PagedDataset ℕ)) (k : Text) (d : PagedDataset ℕ)
    → Dict.lookup k (Dict.insert k d s) ≡ some d
memory-retained s k d = ground (arith, lookup-insert k k d s, text_eq_self k)

abbrev by_two : Manager
by_two = record {
  page_size = 2;
  final_page_hint = codes "Final page.";
  expired_error = codes "Cursor expired or unknown; re-run the search with no cursor.";
}

abbrev five : List ℕ
five = 10 ∷ 20 ∷ 30 ∷ 40 ∷ 50 ∷ []

abbrev uuid : Text
uuid = codes "0123456789abcdef"

IsSound-empty : IsSound memory by_two []
unfolding Dict.lookup
IsSound-empty = record { at = λ k d e. absurd (cc e) }

run-IsSound_example :
    IsSound memory by_two
      (run memory by_two (create five uuid ∷ next (codes "c_01234567") ∷ drop_cursor uuid ∷ []) [])
run-IsSound_example =
    run-IsSound memory by_two (create five uuid ∷ next (codes "c_01234567") ∷ drop_cursor uuid ∷ [])
      [] IsSound-empty

-- A session that has served its first page.
abbrev opened : Dict (PagedDataset ℕ)
opened = (codes "k", record { items = five; cursor_offset = 2; total = 5 }) ∷ []

opened-IsSound : IsSound memory by_two opened
unfolding Dict.lookup
opened-IsSound = record { at = λ k d e. ground (arith) }

-- A session whose next page is its last.
abbrev ending : Dict (PagedDataset ℕ)
ending = (codes "k", record { items = five; cursor_offset = 4; total = 5 }) ∷ []

all_pages-eq_example : all_pages memory 5 by_two [] five uuid ≡ some five
all_pages-eq_example =
    all_pages-eq memory by_two memory-retained (omega arith) five 5 [] uuid (omega arith)
