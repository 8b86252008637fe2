-- ===== src/Database/Drivers/Mysql.antt =====
-- src/handlers/CDatabaseHandler_mysql.cpp. Objects of the library, connections and results, are
-- numbers; `freed` lists the results that `mysql_free_result` was called for.
use solusek.Base.{
  ℕ, zero, suc, ◌+◌, Bool, true, false, not, ◌||◌, List, [], ◌∷◌, ◌==◌, Option, none, some, ltb,
  if◌then◌else◌, Bytes, codes, str_eq, find, find_str, take, drop, length, c_str, ℤ, pos,
}
use solusek.Decimal.{print_nat}
use solusek.Database.Transaction.{Row, Resource, Driver}
use solusek.Database.Drivers.{Table, failed_resource, resource_of, set_data}

-- What a connection string says.
pub record Login : Type 0 where
  pub username : Bytes
  pub password : Bytes
  pub host : Bytes
  pub database : Bytes

-- The client library: the calls for the `n`-th statement of a connection.
pub record Library : Type 0 where
  pub init : Bool
  pub real_connect : Login → Bool
  pub select_db : Bytes → Bool
  -- 0 for success.
  pub real_query : ℕ → Bytes → ℤ
  -- The result set, by its number; `none` for a statement that gives none.
  pub store_result : ℕ → Bytes → Option (ℕ × Table)
  pub insert_id : ℕ → ℕ
  pub real_escape_string : Bytes → Bytes

-- `p2` at its colon.
abbrev pub with_user : Bytes → Bytes → Bytes → Login
with_user p2 host database = elim (find b':' p2) [
  | none ↦ record { username = p2; password = []; host = host; database = database }
  | some n ↦ record {
    username = take n p2;
    password = drop (suc n) p2;
    host = host;
    database = database;
  }
]

-- `p1` at its at-sign.
abbrev pub with_host : Bytes → Bytes → Login
with_host p1 database = elim (find b'@' p1) [
  | none ↦ record { username = []; password = []; host = p1; database = database }
  | some n ↦ with_user (take n p1) (drop (suc n) p1) database
]

abbrev pub with_database : Bytes → Option Login
with_database cs = elim (find b'/' cs) [
  | none ↦ none
  | some n ↦ some (with_host (take n cs) (drop (suc n) cs))
]

-- The front of `open`; `none` is the result `false`.
unfoldable pub parse_connection : Bytes → Option Login
parse_connection s =
    if ltb (length s) 8 || not (str_eq (take 8 s) (codes "mysql://"))
    then none
    else elim (find_str (codes "://") s) [ none ↦ none | some n ↦ with_database (drop (n + 3) s) ]

-- `CDatabaseHandler`: `C`, and the objects of `mysql_init` that were made and closed.
pub record Handler : Type 0 where
  pub connection_string : Bytes
  pub c : Option ℕ
  pub made : ℕ
  pub closed : List ℕ

unfoldable pub new_handler : Handler
new_handler = record { connection_string = []; c = none; made = 0; closed = [] }

-- The `c_str()` of each part.
abbrev pub c_login : Login → Login
c_login login = record {
  username = c_str login.username;
  password = c_str login.password;
  host = c_str login.host;
  database = c_str login.database;
}

-- Behind the connection string. `C` stays set when the connection fails.
abbrev pub connect : Library → Handler → Login → Handler × Bool
connect l h login =
    if l.init
    then (
      record h { c = some h.made; made = suc h.made },
      (if l.real_connect (c_login login) then l.select_db (c_str login.database) else false),
    )
    else (record h { c = none }, false)

unfoldable pub open_mysql : Library → Handler → Handler × Bool
unfolding parse_connection
open_mysql l h = elim (parse_connection h.connection_string) [
  | none ↦ (h, false)
  | some login ↦ connect l h login
]

-- `close`, and the destructor.
unfoldable pub close_mysql : Handler → Handler
close_mysql h = elim h.c [ none ↦ h | some c ↦ record h { c = none; closed = c ∷ h.closed } ]

-- `begin`: the connection of the transaction; `none` is the thrown error.
unfoldable pub begin_mysql : Handler → Option ℕ
begin_mysql h = h.c

-- Whether `mysql_real_query` gave 0.
abbrev pub succeeded : ℤ → Bool
succeeded (pos n) = n == 0
succeeded r = false

-- `push_back(row[n])`, or `push_back("")` for NULL.
abbrev pub cell_text : Option Bytes → Bytes
cell_text none = []
cell_text (some s) = c_str s

-- The loop over the columns of a row; a row has a cell for each of them.
unfoldable pub row_texts : ℕ → List (Option Bytes) → Row
row_texts zero row = []
row_texts (suc n) [] = []
row_texts (suc n) (c ∷ row) = cell_text c ∷ row_texts n row

-- The loop over the rows: what the callback is given.
unfoldable pub mysql_rows : ℕ → List (List (Option Bytes)) → List Row
unfolding row_texts
mysql_rows columns [] = []
mysql_rows columns (row ∷ rows) = row_texts columns row ∷ mysql_rows columns rows

unfoldable pub mysql_query : Library → ℕ → Bytes → Bool × List Row
unfolding mysql_rows
mysql_query l n s =
    if succeeded (l.real_query n s)
    then elim (l.store_result n s) [
      | none ↦ (false, [])
      | some (res, t) ↦ (true, mysql_rows t.columns t.cells)
    ]
    else (false, [])

-- The first row, with its first cell as the id; `none` is the construction of a string from NULL.
abbrev pub first_row : ℕ → List (List (Option Bytes)) → Option Resource
first_row columns [] = some (resource_of [])
first_row columns ([] ∷ rows) = none
first_row columns ((none ∷ row) ∷ rows) = none
first_row columns ((some id ∷ row) ∷ rows) =
    some (set_data (row_texts columns (some id ∷ row) ∷ []) (resource_of (c_str id)))

-- A failed statement is no error of the resource.
unfoldable pub mysql_query_one : Library → ℕ → Bytes → Option Resource
unfolding row_texts
mysql_query_one l n s =
    if succeeded (l.real_query n s)
    then elim (l.store_result n s) [
      | none ↦ some (resource_of [])
      | some (res, t) ↦ first_row t.columns t.cells
    ]
    else some (resource_of [])

-- What `insert` gives: the resource, the result that it holds, and what was freed.
pub record Inserted : Type 0 where
  pub resource : Resource
  pub held : Option ℕ
  pub freed : List ℕ

-- `none`: the function ends without a `return`. The statement is the error's text.
unfoldable pub mysql_insert : Library → ℕ → Bytes → Option Inserted
mysql_insert l n s =
    if succeeded (l.real_query n s)
    then elim (l.store_result n s) [
      | none ↦ none
      | some (res, t) ↦ some (record {
        resource = resource_of (print_nat (l.insert_id n));
        held = some res;
        freed = res ∷ [];
      })
    ]
    else some (record { resource = failed_resource s; held = none; freed = [] })

abbrev pub is_freed : ℕ → List ℕ → Bool
is_freed r [] = false
is_freed r (f ∷ fs) = if f == r then true else is_freed r fs

-- The destructor of a resource; `none` if its result was freed before.
unfoldable pub delete_resource : Option ℕ → List ℕ → Option (List ℕ)
delete_resource none freed = some freed
delete_resource (some r) freed = if is_freed r freed then none else some (r ∷ freed)

-- The buffer is read as a C string.
unfoldable pub mysql_esc : Library → Bytes → Bytes
mysql_esc l s = c_str (l.real_escape_string s)

abbrev pub defined_or : Resource → Option Resource → Resource
defined_or undefined none = undefined
defined_or undefined (some r) = r

abbrev pub inserted_resource : Option Inserted → Option Resource
inserted_resource none = none
inserted_resource (some i) = some i.resource

-- The driver that a transaction uses; `undefined` stands for what has no defined result.
unfoldable pub mysql_driver : Library → Resource → Driver
unfolding mysql_esc mysql_insert mysql_query_one mysql_query
mysql_driver l undefined = record {
  esc = mysql_esc l;
  exec = λ n s. l.real_query n s;
  insert = λ n s id_field. defined_or undefined (inserted_resource (mysql_insert l n s));
  query_one = λ n s. defined_or undefined (mysql_query_one l n s);
  query = mysql_query l;
}
