-- ===== src/CsvDb/Tests.antt =====
-- A database with one table, over integers for floats and lists of records for files.
use personal_productivity_ai.Common.{
  ◌≡◌, refl, ℕ, Bool, true, false, Option, none, some, List, [], ◌∷◌, ◌++◌, map, leb, ◌&&◌, length,
}
use personal_productivity_ai.CsvDb.Eval.Division.{Divides, eval_binary_op-div}
use personal_productivity_ai.CsvDb.Value.{is_i64}
use personal_productivity_ai.CsvDb.Value
use personal_productivity_ai.CsvDb.Eval.{eval_binary_op}
use personal_productivity_ai.Common.Int.{negsuc}
use personal_productivity_ai.Common.Text.{Text, codes}
use personal_productivity_ai.Common.Dict.{Dict, has_key}
use personal_productivity_ai.Common.Int.{ℤ, pos, ◌+ℤ◌, ◌-ℤ◌, ◌*ℤ◌}
use personal_productivity_ai.CsvDb.Value.{
  Float, Unicode, UnaryOp, BinaryOp, ok, err, no_database, missing_header, cmp_ℤ, div_ℤ,
}
use personal_productivity_ai.CsvDb.Lexer.Total.{IsReturned}
use personal_productivity_ai.CsvDb.Parser.{parse}
use personal_productivity_ai.CsvDb.Parser.Total.{parse-IsReturned}
use personal_productivity_ai.CsvDb.Eval.{is_eq}
use personal_productivity_ai.CsvDb.Database.{
  Csv, Record, get_db_path, open_db, plan_delete, delete_rows, query_csv,
}
use personal_productivity_ai.CsvDb.Database.Rows.{delete_rows-again}
use personal_productivity_ai.CsvDb.Database.Counts.{plan_delete-query_csv, delete_rows-refused}
use personal_productivity_ai.CsvDb.Tables.{add_rows, plan_add}

abbrev integers : Float
integers = record {
  F = ℤ;
  of_int = λ z. z;
  parse_float = λ s. none;
  float_eq = λ a b. is_eq (cmp_ℤ a b);
  partial_cmp = λ a b. some (cmp_ℤ a b);
  neg = λ a. pos 0 -ℤ a;
  add = λ a b. a +ℤ b;
  sub = λ a b. a -ℤ b;
  mul = λ a b. a *ℤ b;
  div = div_ℤ;
  zero_float = pos 0;
}

abbrev small_letter : ℕ → Bool
small_letter c = leb b'a' c && leb c b'z'

abbrev ascii : Unicode
ascii = record {
  is_alphabetic = small_letter;
  is_alphanumeric = small_letter;
  to_lowercase = λ s. s;
  alphanumeric_of_alphabetic = λ c h. h;
}

abbrev header_of : List Record → Option Record
header_of [] = none
header_of (header ∷ rows) = some header

abbrev rows_of : List Record → List (Option Record)
rows_of [] = []
rows_of (header ∷ rows) = map some rows

abbrev plain : Csv
plain = record {
  File = List Record;
  can_open = λ file. true;
  headers = header_of;
  records = rows_of;
  write_records = λ rows. (rows, true);
  append = λ file buffer. (file ++ buffer, true);
  can_open_written = λ header rows h. refl;
  headers_written = λ header rows p h. refl;
  records_written = λ header rows p h. refl;
}

abbrev header : Record
header = codes "a" ∷ codes "b" ∷ []

abbrev first : Record
first = codes "1" ∷ codes "x" ∷ []

abbrev second : Record
second = codes "2" ∷ codes "y" ∷ []

abbrev files : Dict (List Record)
files = (codes "t.csv", header ∷ first ∷ second ∷ []) ∷ []

parse-IsReturned_example : IsReturned (parse integers ascii (codes "(a + 1) * 2 <= 7 and not b"))
parse-IsReturned_example = parse-IsReturned integers ascii (codes "(a + 1) * 2 <= 7 and not b")

plan_example :
    plan_delete integers ascii true plain (codes "t") (codes "a == 1") files
    ≡ ok (header, 1, second ∷ [])
unfolding plan_delete
plan_example = refl

delete_rows-again_example :
    (delete_rows integers ascii true plain
      (codes "t")
      (codes "a == 1")
      (delete_rows integers ascii true plain (codes "t") (codes "a == 1") files).0).1
    ≡ ok 0
delete_rows-again_example =
    delete_rows-again integers ascii true plain (codes "t") (codes "a == 1") files header 1
      (second ∷ []) plan_example refl refl

plan_delete-query_csv_example :
    (file : List Record) × (rows : List (Dict Text)) × (open_db {F = ℤ} plain (codes "t") files
      ≡ ok (file, header))
    × (query_csv integers ascii true plain
          (record {
            db_name = codes "t";
            predicate = some (codes "a == 1");
            aggregate_col = none;
            aggregate_func = none;
          })
          files
        ≡ ok (record { rows = rows; aggregate_result = none }))
    × (length rows ≡ 1)
    × (2 ≡ length (rows_of file))
plan_delete-query_csv_example =
    plan_delete-query_csv integers ascii true plain (codes "t") (codes "a == 1") files header 1
      (second ∷ []) plan_example

no_table :
    (delete_rows integers ascii true plain (codes "u") (codes "a == 1") files).1
    ≡ err (no_database (codes "u"))
unfolding delete_rows
no_table = refl

delete_rows-refused_example :
    (delete_rows integers ascii true plain (codes "u") (codes "a == 1") files).0 ≡ files
delete_rows-refused_example =
    delete_rows-refused integers ascii true plain (codes "u") (codes "a == 1") files
      (no_database (codes "u")) no_table (λ h. absurd cc)

abbrev third : Dict Text
third = (codes "b", codes "z") ∷ (codes "a", codes "3") ∷ []

opened : open_db {F = ℤ} plain (codes "t") files ≡ ok (header ∷ first ∷ second ∷ [], header)
unfolding open_db
opened = refl

planned :
    plan_add {F = ℤ} plain (codes "t") (third ∷ []) files
    ≡ ok (header ∷ first ∷ second ∷ [], (codes "3" ∷ codes "z" ∷ []) ∷ [])
unfolding plan_add
planned = refl

abbrev partial : Dict Text
partial = (codes "a", codes "3") ∷ []

missing :
    (add_rows {F = ℤ} plain (codes "t") (partial ∷ []) files).1 ≡ err (missing_header 0 (codes "b"))
unfolding add_rows
missing = refl

new_name : has_key (get_db_path (codes "u")) files ≡ false
unfolding has_key get_db_path
new_name = refl

seven : is_i64 (negsuc 6) ≡ true
unfolding is_i64
seven = refl

two : is_i64 (pos 2) ≡ true
unfolding is_i64
two = refl

eval_binary_op-div_example :
    Divides
      (negsuc 6)
      (pos 2)
      (eval_binary_op integers true BinaryOp.div (Value.int (negsuc 6)) (Value.int (pos 2)))
eval_binary_op-div_example = eval_binary_op-div integers true (negsuc 6) (pos 2) seven two
