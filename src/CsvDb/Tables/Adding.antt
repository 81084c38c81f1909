-- ===== src/CsvDb/Tables/Adding.antt =====
-- What `add_rows` and `create_csv` of src/agent/tools/csv_db/operations.rs accept and refuse.
use mathlib.Core.Path.{transport}
use personal_productivity_ai.Common.{
  ℕ, suc, ◌≡◌, refl, sym, ◌∙◌, Bool, true, false, none, List, [], ◌∷◌, length, All, arith,
}
use personal_productivity_ai.Common.Text.{Text, text_eq_iff, text_eq_self}
use personal_productivity_ai.Common.Dict.{Dict, has_key, lookup-insert}
use personal_productivity_ai.CsvDb.Value.{
  Float, Unicode, Error, cannot_write, Outcome, ok, err, panic, out_of_fuel, ok_of_bind, eq_of_ok,
}
use personal_productivity_ai.CsvDb.Database.{
  Csv, Record, is_plain_header, get_db_path, open_db, write_file, query_csv, aggregate,
  parse_predicate, matched_rows,
}
use personal_productivity_ai.CsvDb.Tables.{
  contains, check_keys, check_headers, check_rows, plan_add, commit_add, add_rows, create_csv,
}

-- The row's keys are the headers.
abbrev pub HasHeaders : Record → Dict Text → Type 0
HasHeaders headers row = (key : Text) → contains key headers ≡ has_key key row

module _ {F : Type 0} where
  keys_of_check :
      (i : ℕ) (headers : Record) (row : Dict Text) (key : Text)
      → check_keys {F = F} i headers row ≡ ok tt
      → has_key key row ≡ true
      → contains key headers ≡ true
  unfolding check_keys has_key
  keys_of_check i headers [] key h k = absurd cc
  keys_of_check i headers ((j, cell) ∷ row) key h k =
      ground (arith, text_eq_iff j key, keys_of_check i headers row key)

  headers_of_check :
      (i : ℕ) (headers : Record) (row : Dict Text) (key : Text)
      → check_headers {F = F} i headers row ≡ ok tt
      → contains key headers ≡ true
      → has_key key row ≡ true
  unfolding check_headers contains
  headers_of_check i [] row key h k = absurd cc
  headers_of_check i (header ∷ headers) row key h k =
      ground (arith, text_eq_iff header key, headers_of_check i headers row key)

  HasHeaders-of_check :
      (i : ℕ) (headers : Record) (row : Dict Text)
      → check_keys {F = F} i headers row ≡ ok tt
      → check_headers {F = F} i headers row ≡ ok tt
      → HasHeaders headers row
  HasHeaders-of_check i headers row h g key =
      ground (arith, keys_of_check i headers row key h, headers_of_check i headers row key g)

  check_rows-HasHeaders :
      (i : ℕ) (headers : Record) (rows : List (Dict Text))
      → check_rows {F = F} i headers rows ≡ ok tt
      → All (HasHeaders headers) rows
  unfolding check_rows
  check_rows-HasHeaders i headers [] h = tt
  check_rows-HasHeaders i headers (row ∷ rows) h =
      let (_, k, h1) = ok_of_bind (check_keys {F = F} i headers row) _ _ h in
      let (_, g, h2) = ok_of_bind (check_headers {F = F} i headers row) _ _ h1 in
      (HasHeaders-of_check i headers row k g, check_rows-HasHeaders (suc i) headers rows h2)

module _ {F : Type 0} (csv : Csv) where
  open csv use {File, write_records}

  -- Where `add_rows` goes as far as appending to the file, the keys of each row are the headers of
  -- the file.
  pub plan_add-HasHeaders :
      (db_name : Text) (rows : List (Dict Text)) (files : Dict File) (file buffer : File)
      (headers : Record)
      → open_db {F = F} csv db_name files ≡ ok (file, headers)
      → plan_add {F = F} csv db_name rows files ≡ ok (file, buffer)
      → All (HasHeaders headers) rows
  unfolding plan_add
  plan_add-HasHeaders db_name rows files file buffer headers o h =
      let ((file', head), o', h1) = ok_of_bind (open_db {F = F} csv db_name files) _ _ h in
      let (_, c, _) = ok_of_bind (check_rows {F = F} 0 head rows) _ _ h1 in
      let same = eq_of_ok (sym o' ∙ o) in
      transport (λ i. All (HasHeaders ((same i).1)) rows) (check_rows-HasHeaders 0 head rows c)

  commit_add-refused :
      (db_name : Text) (count : ℕ) (files : Dict File) (e : Error F)
      (plan : Outcome F (File × File))
      → (commit_add csv db_name count files plan).1 ≡ err e
      → ¬ e ≡ cannot_write
      → (commit_add csv db_name count files plan).0 ≡ files
  unfolding commit_add
  commit_add-refused db_name count files e (ok (file, buffer)) h n = ground (arith, h, n)
  commit_add-refused db_name count files e (err e') h n = refl
  commit_add-refused db_name count files e panic h n = refl
  commit_add-refused db_name count files e out_of_fuel h n = refl

  -- Where `add_rows` fails, every file is as it was, unless it is a write that failed.
  pub add_rows-refused :
      (db_name : Text) (rows : List (Dict Text)) (files : Dict File) (e : Error F)
      → (add_rows {F = F} csv db_name rows files).1 ≡ err e
      → ¬ e ≡ cannot_write
      → (add_rows {F = F} csv db_name rows files).0 ≡ files
  unfolding add_rows
  add_rows-refused db_name rows files e h n =
      commit_add-refused db_name (length rows) files e (plan_add csv db_name rows files) h n

module _ (f : Float) (u : Unicode) (checks : Bool) (csv : Csv) where
  open f use {F}
  open csv use {File, write_records}

  -- A database that `create_csv` made under a new name, with headers that can be read back, has no
  -- rows.
  pub query_csv-create_csv :
      (db_name : Text) (headers : Record) (files : Dict File)
      → has_key (get_db_path db_name) files ≡ false
      → is_plain_header headers ≡ true
      → (write_records (headers ∷ [])).1 ≡ true
      → query_csv f u checks csv
          (record {
            db_name = db_name;
            predicate = none;
            aggregate_col = none;
            aggregate_func = none;
          })
          (create_csv {F = F} csv db_name headers files).0
        ≡ ok (record { rows = []; aggregate_result = none })
  unfolding query_csv aggregate parse_predicate create_csv write_file open_db matched_rows
  query_csv-create_csv db_name headers files h p w =
      rw
        (
          h,
          lookup-insert (get_db_path db_name) (get_db_path db_name)
              ((write_records (headers ∷ [])).0) files,
          text_eq_self (get_db_path db_name),
          csv.can_open_written headers [] w,
          csv.headers_written headers [] p w,
          csv.records_written headers [] p w,
        )
        refl
