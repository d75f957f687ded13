-- ===== src/Stages.antt =====
-- src/lib.rs (`Stage`, `run_stages`) and src/stages.
pub mod LocalStage
pub mod NetworkStage
pub mod ConfigStage
pub mod FinalStage
pub mod Boot
