-- ===== src/Tests.antt =====
-- The theorems at concrete inputs, and runs of the definitions.
pub mod Data
pub mod Schedule
mod ConfigExamples
mod PolicyExamples
mod DiffExamples
mod RunExamples
mod CacheExamples
mod LimiterExamples
mod LoaderExamples
mod ServerExamples
mod OidcExamples
mod AdminExamples
mod OrgExamples
mod WorkerExamples
