-- ===== src/Tests/Drivers.antt =====
-- The database drivers: src/handlers/CDatabaseHandler_mysql.cpp and CDatabaseHandler_pqxx.cpp.
use solusek.Base.{
  true, [], ◌∷◌, ◌≡◌, refl, arith, none, some, inr, ◌==◌, if◌then◌else◌, Option, List, Bytes, codes,
  pos,
}
use solusek.Database.Transaction.{Transaction}
use solusek.Database.Drivers.Mysql
use solusek.Database.Drivers.Mysql.{
  succeeded, parse_connection, mysql_query, mysql_query_one, mysql_driver,
}
use solusek.Database.Drivers.Pqxx
use solusek.Database.Drivers.Pqxx.{pqxx_query, pqxx_query_one}
use solusek.Database.Drivers.Account.{user_with, parse_connection-text}
use solusek.Database.Drivers.Rows.{mysql-pqxx}

parse_connection-text_example :
    parse_connection (codes "mysql://me:a:b@db.org/shop/1")
    ≡ some (record {
      username = codes "me";
      password = codes "a:b";
      host = codes "db.org";
      database = codes "shop/1";
    })
parse_connection-text_example =
    parse_connection-text (user_with (codes "me") (codes "a:b")) (codes "db.org") (codes "shop/1")
      (ground arith) (ground arith) (ground arith)

-- Two rows, one with a NULL in it.
abbrev cells : List (List (Option Bytes))
cells = (some (codes "1") ∷ none ∷ []) ∷ (some (codes "2") ∷ some (codes "x") ∷ []) ∷ []

-- A library that answers every SELECT with these rows, and has no result set for anything else.
abbrev mysql : Mysql.Library
mysql = record {
  init = true;
  real_connect = λ login. true;
  select_db = λ name. true;
  real_query = λ n s. pos 0;
  store_result = λ n s. elim s [
    | [] ↦ none
    | c ∷ _ ↦ if c == b'S' then some (7, record { columns = 2; cells = cells }) else none
  ];
  insert_id = λ n. 1;
  real_escape_string = λ s. s;
}

abbrev pqxx : Pqxx.Library
pqxx = record {
  connection = λ s. true;
  exec = λ n s. inr (record { columns = 2; cells = cells });
  commit = λ n. none;
  esc = λ s. s;
}

mysql-pqxx_example :
    (mysql_query mysql 0 (codes "SELECT") ≡ pqxx_query pqxx 0 (codes "SELECT"))
    × (mysql_query_one mysql 0 (codes "SELECT") ≡ pqxx_query_one pqxx 0 (codes "SELECT"))
mysql-pqxx_example =
    mysql-pqxx mysql pqxx 0 7 2 (codes "SELECT") cells refl refl refl (refl, (refl, tt)) tt

abbrev begun : Transaction
begun = record { issued = []; handles = [] }
