-- ===== src/Tests/Boot.antt =====
-- Loading the registry from a small disk.
