-- ===== src/Ingest/Auto/Tests.antt =====

