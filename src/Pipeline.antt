-- ===== src/Pipeline.antt =====
-- The queued half of `PhaseOnePipelineService`, src/planagent/services/pipeline.py: staging of
-- ingest runs (Pipeline/Ingest) and knowledge extraction (Pipeline/Knowledge). The review decisions
-- of the same class are in Review.
pub mod Ingest
pub mod Knowledge
pub mod Staging
pub mod Claims
pub mod Stranding
mod Tests
