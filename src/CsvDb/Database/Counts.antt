-- ===== src/CsvDb/Database/Counts.antt =====
-- `delete_rows` and `query_csv` of src/agent/tools/csv_db/query.rs with the same predicate.
use mathlib.Core.Path.{transport}
use personal_productivity_ai.Common.{
  ℕ, suc, ◌+◌, ◌≡◌, refl, ap, ◌∙◌, Bool, true, false, Option, none, some, List, [], ◌∷◌, length,
  arith, if◌then◌else◌,
}
use personal_productivity_ai.Common.Text.{Text}
use personal_productivity_ai.Common.Dict.{Dict}
use personal_productivity_ai.CsvDb.Value.{
  Float, Unicode, Error, cannot_write, Outcome, ok, err, panic, out_of_fuel, ok_of_bind, eq_of_ok,
}
use personal_productivity_ai.CsvDb.Parser.{Expr, parse}
use personal_productivity_ai.CsvDb.Database.{
  Csv, Record, row_map_from, passes, kept_rows, matched_rows, open_db, write_file, plan_delete,
  commit_delete, delete_rows, query_csv, aggregate, parse_predicate,
}

module _ (f : Float) (u : Unicode) (checks : Bool) where
  open f use {F}

  abbrev keep : Bool → Record → ℕ × List Record → ℕ × List Record
  keep matches row (n, kept) = if matches then (suc n, kept) else (n, row ∷ kept)

  abbrev Matched : Expr F → Record → List (Option Record) → ℕ × List Record → Type 0
  Matched e headers rs (n, kept) =
      (rows : List (Dict Text)) × (matched_rows f u checks (some e) headers rs ≡ ok rows)
      × (length rows ≡ n)
      × (n + length kept ≡ length rs)

  Matched-keep :
      (e : Expr F) (headers row : Record) (rs : List (Option Record)) (b : Bool) (n : ℕ)
      (kept : List Record)
      → passes f u checks (some e) headers row ≡ ok b
      → Matched e headers rs (n, kept)
      → Matched e headers (some row ∷ rs) (keep b row (n, kept))
  unfolding matched_rows
  Matched-keep e headers row rs true n kept p (rows, m, l, c) =
      (row_map_from [] row headers ∷ rows, rw (p, m) refl, omega arith, omega arith)
  Matched-keep e headers row rs false n kept p (rows, m, l, c) =
      (rows, rw (p, m) refl, l, omega arith)

  kept_rows-Matched :
      (e : Expr F) (headers : Record) (rs : List (Option Record)) (n : ℕ) (kept : List Record)
      → kept_rows f u checks e headers rs ≡ ok (n, kept)
      → Matched e headers rs (n, kept)
  unfolding kept_rows matched_rows
  kept_rows-Matched e headers [] n kept h =
      transport (λ i. Matched e headers [] (eq_of_ok h i)) ([], refl, refl, refl)
  kept_rows-Matched e headers (none ∷ rs) n kept h = absurd cc
  kept_rows-Matched e headers (some row ∷ rs) n kept h =
      let (b, p, h1) = ok_of_bind (passes f u checks (some e) headers row) _ _ h in
      let ((m, rest), q, h2) = ok_of_bind (kept_rows f u checks e headers rs) _ _ h1 in
      transport (λ i. Matched e headers (some row ∷ rs) (eq_of_ok h2 i))
        (Matched-keep e headers row rs b m rest p (kept_rows-Matched e headers rs m rest q))

module _ (f : Float) (u : Unicode) (checks : Bool) (csv : Csv) where
  open f use {F}
  open csv use {File, records}

  query_csv-ok :
      (db_name predicate : Text) (files : Dict File) (file : File) (header : Record) (e : Expr F)
      (rows : List (Dict Text))
      → open_db {F = F} csv db_name files ≡ ok (file, header)
      → parse f u predicate ≡ ok e
      → matched_rows f u checks (some e) header (records file) ≡ ok rows
      → query_csv f u checks csv
          (record {
            db_name = db_name;
            predicate = some predicate;
            aggregate_col = none;
            aggregate_func = none;
          })
          files
        ≡ ok (record { rows = rows; aggregate_result = none })
  unfolding query_csv aggregate parse_predicate
  query_csv-ok db_name predicate files file header e rows o p m = rw (o, p, m) refl

  -- Where `delete_rows` goes as far as writing the rows it keeps, a query with the same predicate and
  -- no aggregate succeeds and returns as many rows as the deletion reports, and the rows reported and
  -- the rows kept are together all the rows of the file.
  pub plan_delete-query_csv :
      (db_name predicate : Text) (files : Dict File) (header : Record) (n : ℕ) (kept : List Record)
      → plan_delete f u checks csv db_name predicate files ≡ ok (header, n, kept)
      → (file : File) × (rows : List (Dict Text)) × (open_db {F = F} csv db_name files
          ≡ ok (file, header))
        × (query_csv f u checks csv
              (record {
                db_name = db_name;
                predicate = some predicate;
                aggregate_col = none;
                aggregate_func = none;
              })
              files
            ≡ ok (record { rows = rows; aggregate_result = none }))
        × (length rows ≡ n)
        × (n + length kept ≡ length (records file))
  unfolding plan_delete query_csv aggregate
  plan_delete-query_csv db_name predicate files header n kept h =
      let ((file, head), o, h1) = ok_of_bind (open_db csv db_name files) _ _ h in
      let (e, p, h2) = ok_of_bind (parse f u predicate) _ _ h1 in
      let ((m, rest), q, h3) = ok_of_bind (kept_rows f u checks e head (records file)) _ _ h2 in
      let (rows, w, l, c) = kept_rows-Matched f u checks e head (records file) m rest q in
      let same = eq_of_ok h3 in
      (
        file,
        rows,
        o ∙ ap (λ r. ok (file, r.0)) same,
        query_csv-ok db_name predicate files file head e rows o p w,
        l ∙ ap (λ r. r.1) same,
        transport (λ i. (same i).1 + length ((same i).2) ≡ length (records file)) c,
      )

  commit_delete-refused :
      (db_name : Text) (files : Dict File) (e : Error F)
      (plan : Outcome F (Record × ℕ × List Record))
      → (commit_delete f u checks csv db_name files plan).1 ≡ err e
      → ¬ e ≡ cannot_write
      → (commit_delete f u checks csv db_name files plan).0 ≡ files
  unfolding commit_delete write_file
  commit_delete-refused db_name files e (ok (header, m, kept)) h n = ground (arith, h, n)
  commit_delete-refused db_name files e (err e') h n = refl
  commit_delete-refused db_name files e panic h n = refl
  commit_delete-refused db_name files e out_of_fuel h n = refl

  -- A deletion that fails leaves every file as it was, unless it is the writing of the rows that
  -- failed.
  pub delete_rows-refused :
      (db_name predicate : Text) (files : Dict File) (e : Error F)
      → (delete_rows f u checks csv db_name predicate files).1 ≡ err e
      → ¬ e ≡ cannot_write
      → (delete_rows f u checks csv db_name predicate files).0 ≡ files
  unfolding delete_rows
  delete_rows-refused db_name predicate files e h n =
      commit_delete-refused db_name files e (plan_delete f u checks csv db_name predicate files) h n
