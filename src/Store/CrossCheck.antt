-- ===== src/Store/CrossCheck.antt =====
-- The two sources of internal/replay: what EventReader reads of the events that were projected.

