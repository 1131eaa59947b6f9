-- ===== src/Converse/Client/Consistent.antt =====
-- Whatever the servers answer, the backend stays consistent.
use cs.Converse.Service as Service
