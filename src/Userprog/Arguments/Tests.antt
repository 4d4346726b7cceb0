-- ===== src/Userprog/Arguments/Tests.antt =====
-- T.
