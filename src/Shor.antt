-- ===== src/Shor.antt =====
-- archives/addons/synqc_shor_addon_v2/synqc_shor_addon_v2/backend/synqc_shor/.
pub mod RunStore
pub mod Factor
