-- ===== src/Database/Transaction/Handles.antt =====
-- The results that a transaction hands out.
use solusek.Base.{length, List, [], ◌∷◌, ◌++◌, ◌≡◌, sym, ap, ◌∙◌, Bytes, append_assoc, append-nil}
use solusek.Database.Transaction.{
  Row, Resource, Driver, Transaction, Vars, select_sql, select, copy_row, select_callback, collect,
  empty_resource,
}

copy_row-append : (row r : Row) → copy_row row r ≡ r ++ row
unfolding copy_row
copy_row-append [] r = sym (append-nil r)
copy_row-append (x ∷ row) r = copy_row-append row (r ++ x ∷ []) ∙ simp append_assoc

collect-append :
    (rows : List Row) (rs : Resource) → collect rows rs ≡ record rs { rows = rs.rows ++ rows }
unfolding collect select_callback
collect-append [] rs = ap (λ t. record rs { rows = t }) (sym (append-nil rs.rows))
collect-append (row ∷ rows) rs =
    collect-append rows _
    ∙ ap (λ t. record rs { rows = (rs.rows ++ t ∷ []) ++ rows }) (copy_row-append row [])
    ∙ ap (λ t. record rs { rows = t }) (append_assoc rs.rows (row ∷ []) rows)

-- A select sends one statement and gives exactly the rows that the driver reports for it, in
-- order; the transaction owns the result behind those it owned before.
pub select-rows :
    (d : Driver) (table : Bytes) (find : List Bytes) (vars : Vars) (sort limit : Bytes)
    (t : Transaction)
    → let sql = select_sql d table find vars sort limit in
      let rs : Resource = record empty_resource { rows = (d.query (length t.issued) sql).1 } in
      select d table find vars sort limit t
      ≡ (record { issued = t.issued ++ sql ∷ []; handles = t.handles ++ rs ∷ [] }, rs)
unfolding select
select-rows d table find vars sort limit t =
    ap
      (λ (r : Resource). (
        record {
          issued = t.issued ++ select_sql d table find vars sort limit ∷ [];
          handles = t.handles ++ r ∷ [];
        },
        r,
      ))
      (collect-append (d.query (length t.issued) (select_sql d table find vars sort limit)).1
        empty_resource)
