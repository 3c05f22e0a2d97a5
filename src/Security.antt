-- ===== src/Security.antt =====
-- security/input_guard.py, security/output_filter.py and security/content_filter.py: what is checked and
-- cleaned before an alert is processed, and before a verdict is handed out.
pub mod Guard
pub mod Output
pub mod Content
