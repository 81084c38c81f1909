-- ===== src/CsvDb/Database/Rows.antt =====
-- What `delete_rows` of src/agent/tools/csv_db/query.rs deletes, keeps and writes.
use personal_productivity_ai.Common.{
  ℕ, suc, ◌+◌, ◌≡◌, refl, ap, ◌∙◌, Bool, true, false, Option, none, some, List, [], ◌∷◌, map,
  length, arith, if◌then◌else◌,
}
use personal_productivity_ai.Common.Text.{Text, text_eq_self}
use personal_productivity_ai.Common.Dict.{Dict, insert, lookup-insert}
use personal_productivity_ai.CsvDb.Value.{
  Float, Unicode, cannot_write, ok, err, ok_of_bind, eq_of_ok,
}
use mathlib.Core.Path.{transport}
use personal_productivity_ai.CsvDb.Parser.{Expr, parse}
use personal_productivity_ai.CsvDb.Database.{
  Csv, Record, is_plain_header, get_db_path, passes, kept_rows, open_db, write_file, plan_delete,
  commit_delete, delete_rows,
}

module _ (f : Float) (u : Unicode) (checks : Bool) where
  open f use {F}

  -- The rows kept and the number deleted, where the loop over the rest gave `(n, kept)`.
  abbrev keep : Bool → Record → ℕ × List Record → ℕ × List Record
  keep matches row (n, kept) = if matches then (suc n, kept) else (n, row ∷ kept)

  abbrev Kept : Expr F → Record → ℕ → ℕ × List Record → Type 0
  Kept e headers len (n, kept) =
      (n + length kept ≡ len) × (kept_rows f u checks e headers (map some kept) ≡ ok (0, kept))

  Kept-keep :
      (e : Expr F) (headers row : Record) (len : ℕ) (b : Bool) (n : ℕ) (kept : List Record)
      → passes f u checks (some e) headers row ≡ ok b
      → Kept e headers len (n, kept)
      → Kept e headers (suc len) (keep b row (n, kept))
  unfolding kept_rows
  Kept-keep e headers row len true n kept p (h, k) = (omega arith, k)
  Kept-keep e headers row len false n kept p (h, k) = (omega arith, rw (p, k) refl)

  pub kept_rows-Kept :
      (e : Expr F) (headers : Record) (rs : List (Option Record)) (n : ℕ) (kept : List Record)
      → kept_rows f u checks e headers rs ≡ ok (n, kept)
      → Kept e headers (length rs) (n, kept)
  unfolding kept_rows
  kept_rows-Kept e headers [] n kept h =
      transport (λ i. Kept e headers 0 (eq_of_ok h i)) (refl, refl)
  kept_rows-Kept e headers (none ∷ rs) n kept h = absurd cc
  kept_rows-Kept e headers (some row ∷ rs) n kept h =
      let (b, p, h1) = ok_of_bind (passes f u checks (some e) headers row) _ _ h in
      let ((m, rest), q, h2) = ok_of_bind (kept_rows f u checks e headers rs) _ _ h1 in
      transport (λ i. Kept e headers (suc (length rs)) (eq_of_ok h2 i))
        (Kept-keep e headers row (length rs) b m rest p (kept_rows-Kept e headers rs m rest q))

module _ (f : Float) (u : Unicode) (checks : Bool) (csv : Csv) where
  open f use {F}
  open csv use {File, headers, records, write_records}

  -- The rows that `delete_rows` writes back are rows that the predicate does not match.
  kept_of_plan :
      (db_name predicate : Text) (files : Dict File) (header : Record) (n : ℕ) (kept : List Record)
      → plan_delete f u checks csv db_name predicate files ≡ ok (header, n, kept)
      → (e : Expr F) × (parse f u predicate ≡ ok e)
        × (kept_rows f u checks e header (map some kept) ≡ ok (0, kept))
  unfolding plan_delete
  kept_of_plan db_name predicate files header n kept h =
      let ((file, head), o, h1) = ok_of_bind (open_db csv db_name files) _ _ h in
      let (e, p, h2) = ok_of_bind (parse f u predicate) _ _ h1 in
      let ((m, rest), q, h3) = ok_of_bind (kept_rows f u checks e head (records file)) _ _ h2 in
      let again = kept_rows-Kept f u checks e head (records file) m rest q in
      let same = eq_of_ok h3 in
      (
        e,
        p,
        transport
            (λ i. kept_rows f u checks e ((same i).0) (map some ((same i).2)) ≡ ok (0, (same i).2))
            (again.1),
      )

  open_db-insert :
      (db_name : Text) (files : Dict File) (header : Record) (rows : List Record)
      → is_plain_header header ≡ true
      → (write_records (header ∷ rows)).1 ≡ true
      → open_db {F = F} csv db_name
          (insert (get_db_path db_name) ((write_records (header ∷ rows)).0) files)
        ≡ ok ((write_records (header ∷ rows)).0, header)
  unfolding open_db
  open_db-insert db_name files header rows p w =
      rw
        (
          lookup-insert (get_db_path db_name) (get_db_path db_name)
              ((write_records (header ∷ rows)).0) files,
          text_eq_self (get_db_path db_name),
          csv.can_open_written header rows w,
          csv.headers_written header rows p w,
        )
        refl

  -- The deletion that a plan of writing `kept` carries out.
  delete_rows_of_plan :
      (db_name predicate : Text) (files : Dict File) (header : Record) (n : ℕ) (kept : List Record)
      → plan_delete f u checks csv db_name predicate files ≡ ok (header, n, kept)
      → (write_records (header ∷ kept)).1 ≡ true
      → delete_rows f u checks csv db_name predicate files
        ≡ (insert (get_db_path db_name) ((write_records (header ∷ kept)).0) files, ok n)
  unfolding delete_rows write_file commit_delete
  delete_rows_of_plan db_name predicate files header n kept h w =
      ap (commit_delete f u checks csv db_name files) h
      ∙ ap
          (λ b. (
            insert (get_db_path db_name) ((write_records (header ∷ kept)).0) files,
            if b then ok n else err cannot_write,
          ))
          w

  -- The plan on the file that the rows were written to.
  plan_delete-insert :
      (db_name predicate : Text) (files : Dict File) (header : Record) (kept : List Record)
      (e : Expr F)
      → is_plain_header header ≡ true
      → (write_records (header ∷ kept)).1 ≡ true
      → parse f u predicate ≡ ok e
      → kept_rows f u checks e header (map some kept) ≡ ok (0, kept)
      → plan_delete f u checks csv db_name predicate
          (insert (get_db_path db_name) ((write_records (header ∷ kept)).0) files)
        ≡ ok (header, 0, kept)
  unfolding plan_delete
  plan_delete-insert db_name predicate files header kept e p w h k =
      rw (open_db-insert db_name files header kept p w, h, csv.records_written header kept p w, k)
        refl

  -- Where `delete_rows` goes as far as writing the rows it keeps, with a header that can be read
  -- back, and the write succeeds, the same deletion once more succeeds and deletes no row.
  pub delete_rows-again :
      (db_name predicate : Text) (files : Dict File) (header : Record) (n : ℕ) (kept : List Record)
      → plan_delete f u checks csv db_name predicate files ≡ ok (header, n, kept)
      → is_plain_header header ≡ true
      → (write_records (header ∷ kept)).1 ≡ true
      → (delete_rows f u checks csv db_name predicate
          (delete_rows f u checks csv db_name predicate files).0).1
        ≡ ok 0
  delete_rows-again db_name predicate files header n kept h p w =
      let (e, q, k) = kept_of_plan db_name predicate files header n kept h in
      let after = insert (get_db_path db_name) ((write_records (header ∷ kept)).0) files in
      ap (λ r. (delete_rows f u checks csv db_name predicate (r.0)).1)
        (delete_rows_of_plan db_name predicate files header n kept h w)
      ∙ ap (λ r. r.1)
          (delete_rows_of_plan db_name predicate after header 0 kept
            (plan_delete-insert db_name predicate files header kept e p w q k) w)
