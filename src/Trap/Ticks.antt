-- ===== src/Trap/Ticks.antt =====
-- The alarm of trap.c: when the handler is called.
