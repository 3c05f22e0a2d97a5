-- ===== src/Pipeline.antt =====
-- services/triage_pipeline.py: the triage graph.
pub mod State
pub mod Nodes
pub mod Finish
pub mod Graph
pub mod Loop
pub mod Termination
pub mod Run
pub mod Safety
pub mod Registered
mod Tests
