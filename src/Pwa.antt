-- ===== src/Pwa.antt =====
-- apps/pwa/src: the parts of the light peer that are modelled.
pub mod SendBudget
