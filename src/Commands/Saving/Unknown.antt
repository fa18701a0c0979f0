-- ===== src/Commands/Saving/Unknown.antt =====
-- backend/harness/domain/service.py: `_refresh_stages` runs before `validate_plan`, so that a stage that
-- depends on an unknown one is a KeyError.
use agentic_design_harness.Common.{List}
