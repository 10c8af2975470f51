-- ===== src/Backint.antt =====
-- The SAP HANA Backint agent (server/internal/backint): the protocol of its files.
pub mod Protocol
