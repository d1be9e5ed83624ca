-- ===== src/Store.antt =====
-- internal/store: what the store decides before it runs a statement. The database, the files and the
-- statements themselves are left out.
pub mod Filter
pub mod Minutes
