-- ===== src/Database/Handle.antt =====
-- src/server/CDatabaseHandle.h: what a user of a result is given. `none` is the use of a null
-- pointer.
pub mod Ownership
use solusek.Base.{ℕ, ◌%◌, Bool, List, Option, none, some, Bytes, length, u32_mod, is_empty, not}
use solusek.Database.Transaction.{Row, Resource}

-- `CDatabaseHandle`
pub record Handle : Type 0 where
  pub rs : Option Resource
  pub own_id : Bytes

unfoldable pub get_id : Handle → Bytes
get_id h = elim h.rs [ some r ↦ r.id | none ↦ h.own_id ]

unfoldable pub set_id : Bytes → Handle → Handle
set_id i h = elim h.rs [
  | some r ↦ record { rs = some (record r { id = i }); own_id = i }
  | none ↦ record { rs = none; own_id = i }
]

unfoldable pub get_data : Handle → Option (List Row)
get_data h = elim h.rs [ some r ↦ some r.rows | none ↦ none ]

unfoldable pub row_count : Handle → ℕ
row_count h = elim h.rs [ some r ↦ length r.rows % u32_mod | none ↦ 0 ]

unfoldable pub get_error : Handle → Option Bytes
get_error h = elim h.rs [ some r ↦ some r.error | none ↦ none ]

unfoldable pub is_error : Handle → Option Bool
is_error h = elim h.rs [ some r ↦ some (not (is_empty r.error)) | none ↦ none ]
