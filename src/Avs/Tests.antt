-- ===== src/Avs/Tests.antt =====
-- avs.c at a concrete register.
