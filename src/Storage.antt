-- ===== src/Storage.antt =====
-- services/alert_persistence.py and services/context_cache.py: what is kept of alerts outside a run.
pub mod Alerts
pub mod Cache
