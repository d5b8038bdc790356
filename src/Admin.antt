-- ===== src/Admin.antt =====
-- gateway/services/admin_service.py and gateway/api/admin.py: what operators see. The endpoints are
-- behind `require_admin`, which ApiKeys/Listing models.
pub mod Metrics
pub mod Developers
pub mod Metagraph
pub mod Miners
mod Tests
