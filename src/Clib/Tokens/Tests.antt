-- ===== src/Clib/Tokens/Tests.antt =====
-- T.
