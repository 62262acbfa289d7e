-- ===== src/Mld.antt =====
-- The MLD part of src/ecmh.c: queries and reports that are sent, and those that are received.
pub mod Query
pub mod Report1
pub mod Report2
pub mod Room
pub mod Spill
pub mod Overrun
pub mod Reports
pub mod Kept
pub mod Quiet
pub mod Places
pub mod Sent
pub mod Listen
