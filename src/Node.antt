-- ===== src/Node.antt =====
-- src/server/CNode.cpp: one connection, from the request to the response.
pub mod Header
pub mod Body
pub mod Cookies
pub mod Response
pub mod Run
