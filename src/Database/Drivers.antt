-- ===== src/Database/Drivers.antt =====
-- src/handlers/CDatabaseHandler.h, CDatabaseHandler_mysql.cpp and CDatabaseHandler_pqxx.cpp: what the
-- drivers make of the answers of their libraries, which are parameters.
pub mod Mysql
pub mod Pqxx
pub mod Rows
pub mod Account
use solusek.Base.{
  ℕ, zero, suc, Bool, not, List, [], ◌∷◌, Option, none, some, Bytes, c_str, length, is_empty,
}
use solusek.Database.Transaction.{Row, Resource}

-- A result of the library: the number of its columns, and its rows; `none` is a cell that is NULL.
pub record Table : Type 0 where
  pub columns : ℕ
  pub cells : List (List (Option Bytes))

-- `CDatabaseResource(const std::string &error)`
abbrev pub failed_resource : Bytes → Resource
failed_resource error = record { id = []; error = error; rows = [] }

-- `CDatabaseResource(void *resource, const std::string& id)`
abbrev pub resource_of : Bytes → Resource
resource_of id = record { id = id; error = []; rows = [] }

-- `setData`
abbrev pub set_data : List Row → Resource → Resource
set_data rows r = record r { rows = rows }

unfoldable pub get_first : Resource → Row
get_first r = elim r.rows [ [] ↦ [] | row ∷ rows ↦ row ]

unfoldable pub resource_size : Resource → ℕ
resource_size r = length r.rows

unfoldable pub resource_is_error : Resource → Bool
resource_is_error r = not (is_empty r.error)
