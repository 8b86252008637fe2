-- ===== src/Database/Drivers/Rows.antt =====
-- What the two drivers agree on, and where the MySQL driver goes wrong.
use solusek.Base.{
  ℕ, zero, suc, arith, ◌∙◌, c_str, All, Bool, true, false, List, [], ◌∷◌, ◌≡◌, refl, ap, ◌⊎◌, inl,
  inr, Option, none, some, Option-cases, Bool-cases, ==_refl, Bytes, length,
}
use solusek.Decimal.{print_nat}
use solusek.Database.Transaction.{Row, Resource, Transaction, Vars, update, update_sql}
use solusek.Database.Drivers.{resource_of, set_data}
use solusek.Database.Drivers.Mysql.{
  Library, row_texts, mysql_rows, succeeded, first_row, mysql_query, mysql_query_one, mysql_insert,
  Inserted, delete_resource, mysql_driver,
}
use solusek.Database.Drivers.Pqxx
use solusek.Database.Drivers.Pqxx.{pqxx_row, pqxx_rows, first_result, pqxx_query, pqxx_query_one}

-- The first row has a first cell, which is not NULL.
abbrev pub IsKeyed : List (List (Option Bytes)) → Type 0
IsKeyed [] = Unit
IsKeyed ([] ∷ rows) = ⊥
IsKeyed ((none ∷ row) ∷ rows) = ⊥
IsKeyed ((some id ∷ row) ∷ rows) = Unit

-- Every row has a cell for each column.
abbrev pub IsTable : ℕ → List (List (Option Bytes)) → Type 0
IsTable columns = All (λ (row : List (Option Bytes)). length row ≡ columns)

row_texts-pqxx_row :
    (n : ℕ) (row : List (Option Bytes)) → length row ≡ n → row_texts n row ≡ pqxx_row row
unfolding row_texts pqxx_row
row_texts-pqxx_row zero [] h = refl
row_texts-pqxx_row zero (c ∷ row) h = absurd (omega arith)
row_texts-pqxx_row (suc n) [] h = absurd (omega arith)
row_texts-pqxx_row (suc n) (none ∷ row) h =
    ap (λ t. [] ∷ t) (row_texts-pqxx_row n row (omega arith))
row_texts-pqxx_row (suc n) (some s ∷ row) h =
    ap (λ t. c_str s ∷ t) (row_texts-pqxx_row n row (omega arith))

mysql_rows-pqxx_rows :
    (n : ℕ) (cells : List (List (Option Bytes)))
    → IsTable n cells
    → mysql_rows n cells ≡ pqxx_rows cells
unfolding mysql_rows pqxx_rows
mysql_rows-pqxx_rows n [] h = refl
mysql_rows-pqxx_rows n (row ∷ rows) h =
    ap (λ (r : Row). r ∷ mysql_rows n rows) (row_texts-pqxx_row n row h.0)
    ∙ ap (λ rs. pqxx_row row ∷ rs) (mysql_rows-pqxx_rows n rows h.1)

first_row-first_result :
    (n : ℕ) (cells : List (List (Option Bytes)))
    → IsTable n cells
    → IsKeyed cells
    → first_row n cells ≡ first_result (pqxx_rows cells)
unfolding pqxx_rows
first_row-first_result n [] t h = refl
first_row-first_result n ([] ∷ rows) t h = absurd h
first_row-first_result n ((none ∷ row) ∷ rows) t h = absurd h
first_row-first_result n ((some id ∷ row) ∷ rows) t h =
    ap (λ (r : Row). some (set_data (r ∷ []) (resource_of (c_str id))))
      (row_texts-pqxx_row n (some id ∷ row) t.0)
    ∙ (unfold pqxx_row in refl)

-- When both libraries answer a statement with the same table, which has a cell for each column in
-- every row, and no row or a first cell in its first row that is not NULL, the loop of the MySQL
-- driver over the columns and that of the PostgreSQL driver over the fields of a row give the callback
-- the same rows in the same order, and their `queryOne` gives the same resource.
pub mysql-pqxx :
    (l : Library) (p : Pqxx.Library) (n res columns : ℕ) (s : Bytes)
    (cells : List (List (Option Bytes)))
    → succeeded (l.real_query n s) ≡ true
    → l.store_result n s ≡ some (res, record { columns = columns; cells = cells })
    → p.exec n s ≡ inr (record { columns = columns; cells = cells })
    → IsTable columns cells
    → IsKeyed cells
    → (mysql_query l n s ≡ pqxx_query p n s) × (mysql_query_one l n s ≡ pqxx_query_one p n s)
unfolding mysql_query pqxx_query mysql_query_one pqxx_query_one
mysql-pqxx l p n res columns s cells ok stored executed table h = (
  rw (ok, stored)
      (rw (executed, pqxx_query)
        (ap (λ (rs : List Row). (true, rs)) (mysql_rows-pqxx_rows columns cells table))),
  rw (ok, stored) (rw (executed, pqxx_query_one) (first_row-first_result columns cells table h)),
)

mysql_query-none :
    (l : Library) (n : ℕ) (s : Bytes) → l.store_result n s ≡ none → mysql_query l n s ≡ (false, [])
unfolding mysql_query
mysql_query-none l n s h = elim (Bool-cases (succeeded (l.real_query n s))) [
  | inl e ↦ rw (e, h) refl
  | inr e ↦ rw e refl
]

-- Where MySQL gives no result set for an UPDATE statement, as it does for every one, `update` returns
-- false, whether or not the statement has succeeded.
pub update-mysql_driver :
    (l : Library) (undefined : Resource) (table : Bytes) (find vars : Vars) (t : Transaction)
    → l.store_result (length t.issued) (update_sql (mysql_driver l undefined) table find vars)
      ≡ none
    → (update (mysql_driver l undefined) table find vars t).1 ≡ false
unfolding update mysql_driver
update-mysql_driver l undefined table find vars t h =
    ap (λ (r : Bool × List Row). r.0)
      (mysql_query-none l (length t.issued) (update_sql (mysql_driver l undefined) table find vars)
        h)

-- What comes of an insert that the database has carried out: the function ends without a value, or
-- the result that the resource holds is freed already, so that deleting the resource frees it twice.
pub mysql_insert_freed :
    (l : Library) (n : ℕ) (s : Bytes)
    → succeeded (l.real_query n s) ≡ true
    → (mysql_insert l n s ≡ none)
      ⊎ ((i : Inserted) × (mysql_insert l n s ≡ some i) × (delete_resource i.held i.freed ≡ none))
unfolding mysql_insert delete_resource
mysql_insert_freed l n s ok = elim (Option-cases (l.store_result n s)) [
  | inl e ↦ inl (rw (ok, e) refl)
  | inr ((res, t), e) ↦ inr (
    record {
      resource = resource_of (print_nat (l.insert_id n));
      held = some res;
      freed = res ∷ [];
    },
    rw (ok, e) refl,
    rw (==_refl res) refl,
  )
]
