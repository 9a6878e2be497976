-- ===== src/Safety.antt =====
-- The rules that keep commands and files within bounds: src/safety, src/core/tools/fsTool.ts and
-- the path check of src/core/patch/patchValidator.ts.
pub mod Letters
pub mod Shell
pub mod Inside
pub mod Risk
mod Tests
