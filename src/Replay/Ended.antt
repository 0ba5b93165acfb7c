-- ===== src/Replay/Ended.antt =====
-- A run that has ended (isTerminalStatus of internal/replay/fold.go) stays as it is.
