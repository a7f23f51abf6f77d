-- ===== src/Host.antt =====
-- The services on the hosts: host/mowgli_lora.
pub mod Parser
pub mod Modem
pub mod Output
pub mod Pump
pub mod Recording
pub mod Ros
pub mod Base
pub mod Robot
