-- ===== src/Store/Invariant.antt =====
-- The constraints of the schema (SCHEMA_V1 of sqlite.rs) as an invariant of the store: primary keys,
-- the unique index on (groupId, seq), and the foreign key of `members`.
pub mod Tables
pub mod GroupCalls
pub mod MemberCalls
pub mod OutboxCalls
pub mod Preserved
