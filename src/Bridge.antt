-- ===== src/Bridge.antt =====
-- apps/bridge-service/src: the parts of the bridge that are modelled.
pub mod Broker
pub mod JsonStore
pub mod Store
