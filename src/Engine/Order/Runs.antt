-- ===== src/Engine/Order/Runs.antt =====
-- The run of a plan: runExecutionWaves on the waves that executionWaves of
-- internal/core/engine/engine.go makes.
