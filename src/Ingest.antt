-- ===== src/Ingest.antt =====
-- components/alert_normalizer.py, components/auto_ingest.py and components/detection_finding_builder.py:
-- from the payload of a request to a normalized alert.
pub mod Texts
pub mod Severity
pub mod Finding
pub mod Detect
pub mod Expand
pub mod Parsers
pub mod Auto
pub mod Sample
mod Tests
