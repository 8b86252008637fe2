-- ===== src/Database/Transaction.antt =====
-- src/server/CTransaction.cpp: the statements that a transaction builds and sends. What the
-- database's client library does is a parameter, the record `Driver`.
pub mod Statements
pub mod Handles
use solusek.Base.{
  ℕ, length, Bool, true, false, List, [], ◌∷◌, ◌++◌, if◌then◌else◌, Bytes, codes, is_empty, ℤ,
}

abbrev pub Row : Type 0
Row = List Bytes

-- The fields of `CDatabaseResource` that this code reads.
pub record Resource : Type 0 where
  pub id : Bytes
  pub error : Bytes
  pub rows : List Row

-- `CDatabaseTransaction`: what each call returns when it is the `n`-th statement of the connection.
pub record Driver : Type 0 where
  pub esc : Bytes → Bytes
  pub exec : ℕ → Bytes → ℤ
  pub insert : ℕ → Bytes → Bytes → Resource
  pub query_one : ℕ → Bytes → Resource
  -- The result and the rows that the callback is called with.
  pub query : ℕ → Bytes → Bool × List Row

-- The statements sent so far, and the results that the transaction owns.
pub record Transaction : Type 0 where
  pub issued : List Bytes
  pub handles : List Resource

-- `std::map` gives its entries in the order of their keys.
abbrev pub Vars : Type 0
Vars = List (Bytes × Bytes)

-- `if(acc.size() > 0) acc += sep;`
abbrev pub separated : Bytes → Bytes → Bytes
separated sep acc = if is_empty acc then acc else acc ++ sep

-- The two accumulators of `insert`.
unfoldable pub insert_loop : Driver → Vars → Bytes → Bytes → Bytes × Bytes
insert_loop d [] acc vals = (acc, vals)
insert_loop d ((k, v) ∷ vars) acc vals =
    insert_loop d vars (separated (codes ",") acc ++ k)
      (((separated (codes ",") vals ++ codes "'") ++ d.esc v) ++ codes "'")

unfoldable pub insert_sql : Driver → Bytes → Vars → Bytes
unfolding insert_loop
insert_sql d table vars =
    let (acc, vals) = insert_loop d vars [] [] in
    (((((codes "INSERT INTO " ++ table) ++ codes " (") ++ acc) ++ codes ") VALUES (") ++ vals)
    ++ codes ")"

-- The loops that write `name='value'`, with `text` for what is done to the value.
unfoldable pub pairs_loop : (Bytes → Bytes) → Bytes → Vars → Bytes → Bytes
pairs_loop text sep [] acc = acc
pairs_loop text sep ((k, v) ∷ vars) acc =
    pairs_loop text sep vars ((((separated sep acc ++ k) ++ codes "='") ++ text v) ++ codes "'")

abbrev unescaped : Bytes → Bytes
unescaped v = v

-- The values of `find` are not escaped.
unfoldable pub update_sql : Driver → Bytes → Vars → Vars → Bytes
unfolding pairs_loop
update_sql d table find vars =
    let acc = pairs_loop unescaped (codes " AND ") find [] in
    let vals = pairs_loop d.esc (codes ",") vars [] in
    ((((codes "UPDATE " ++ table) ++ codes " SET ") ++ vals) ++ codes " WHERE ") ++ acc

unfoldable pub names_loop : List Bytes → Bytes → Bytes
names_loop [] q = q
names_loop (n ∷ names) q = names_loop names (separated (codes ",") q ++ n)

abbrev no_vars : Vars → Bool
no_vars [] = true
no_vars (v ∷ vars) = false

abbrev with_where : Driver → Vars → Bytes → Bytes
with_where d vars builder =
    if no_vars vars
    then builder
    else (builder ++ codes " WHERE ") ++ pairs_loop d.esc (codes " AND ") vars []

abbrev with_clause : Bytes → Bytes → Bytes → Bytes
with_clause keyword text builder = if is_empty text then builder else (builder ++ keyword) ++ text

-- The builder of `selectOne`.
unfoldable pub select_one_sql : Driver → Bytes → List Bytes → Vars → Bytes → Bytes
unfolding pairs_loop names_loop
select_one_sql d table find vars sort =
    let builder = ((codes "SELECT " ++ names_loop find []) ++ codes " FROM ") ++ table in
    with_clause (codes " ORDER BY ") sort (with_where d vars builder) ++ codes " LIMIT 1"

-- The builder of `select`.
unfoldable pub select_sql : Driver → Bytes → List Bytes → Vars → Bytes → Bytes → Bytes
unfolding pairs_loop names_loop
select_sql d table find vars sort limit =
    let builder = ((codes "SELECT " ++ names_loop find []) ++ codes " FROM ") ++ table in
    with_clause (codes " LIMIT ") limit
      (with_clause (codes " ORDER BY ") sort (with_where d vars builder))

-- Sends a statement.
abbrev pub issue : Bytes → Transaction → Transaction
issue sql t = record t { issued = t.issued ++ sql ∷ [] }

unfoldable pub exec : Driver → Bytes → Transaction → Transaction × ℤ
exec d s t = (issue s t, d.exec (length t.issued) s)

-- `Handles.push_back(r)`
abbrev pub own : Resource → Transaction → Transaction × Resource
own r t = (record t { handles = t.handles ++ r ∷ [] }, r)

unfoldable pub insert : Driver → Bytes → Vars → Transaction → Transaction × Resource
unfolding insert_sql
insert d table vars t =
    own (d.insert (length t.issued) (insert_sql d table vars) (codes "id"))
      (issue (insert_sql d table vars) t)

unfoldable pub update : Driver → Bytes → Vars → Vars → Transaction → Transaction × Bool
unfolding update_sql
update d table find vars t = (
  issue (update_sql d table find vars) t,
  (d.query (length t.issued) (update_sql d table find vars)).0,
)

unfoldable pub select_one :
    Driver → Bytes → List Bytes → Vars → Bytes → Transaction → Transaction × Resource
unfolding select_one_sql
select_one d table find vars sort t =
    own (d.query_one (length t.issued) (select_one_sql d table find vars sort))
      (issue (select_one_sql d table find vars sort) t)

-- The loop of `selectCallback` over the columns of a row.
unfoldable pub copy_row : Row → Row → Row
copy_row [] r = r
copy_row (x ∷ row) r = copy_row row (r ++ x ∷ [])

-- `selectCallback`: one more row in the result.
unfoldable pub select_callback : Row → Resource → Resource
unfolding copy_row
select_callback row rs = record rs { rows = rs.rows ++ copy_row row [] ∷ [] }

-- The driver calls the callback once for each row.
unfoldable pub collect : List Row → Resource → Resource
unfolding select_callback
collect [] rs = rs
collect (row ∷ rows) rs = collect rows (select_callback row rs)

abbrev pub empty_resource : Resource
empty_resource = record { id = []; error = []; rows = [] }

unfoldable pub select_custom : Driver → Bytes → Transaction → Transaction × Resource
unfolding collect
select_custom d query t =
    own (collect (d.query (length t.issued) query).1 empty_resource) (issue query t)

unfoldable pub select :
    Driver → Bytes → List Bytes → Vars → Bytes → Bytes → Transaction → Transaction × Resource
unfolding select_sql collect
select d table find vars sort limit t =
    let sql = select_sql d table find vars sort limit in
    own (collect (d.query (length t.issued) sql).1 empty_resource) (issue sql t)

unfoldable pub commit : Driver → Transaction → Transaction
commit d t = issue (codes "commit;") t

-- Every handle is deleted.
unfoldable pub cleanup : Transaction → Transaction
cleanup t = record t { handles = [] }
