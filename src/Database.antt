-- ===== src/Database.antt =====
-- src/server/CTransaction.cpp, CDatabase.cpp and CDatabaseInstance.cpp.
pub mod Transaction
pub mod Pool
pub mod Handle
pub mod Drivers
pub mod Lock
