-- ===== src/Guardrails.antt =====
-- app/guardrails/: the checks before and after a provider call.
pub mod Chain
pub mod Counts
pub mod First
pub mod Size
pub mod Pii
pub mod PiiNer
pub mod Injection
pub mod ContentPolicy
pub mod InjectionClassifier
pub mod Metrics
pub mod Citation
pub mod ToolSanitize
pub mod SchemaRepair
mod ScreenTests
mod CiteTests
mod Tests
