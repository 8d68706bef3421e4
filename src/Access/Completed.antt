-- ===== src/Access/Completed.antt =====
-- internal/inference/workers/entitlement_sync.go: a sync of a source goes through.
