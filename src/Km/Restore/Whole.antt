-- ===== src/Km/Restore/Whole.antt =====
-- What `restore` makes of the answer of the database.
