-- ===== src/Tasks.antt =====
-- The orchestration of ESP_AKS/src/main.cpp: what the tasks do with the parts.
pub mod Hmi
pub mod Radio
pub mod System
pub mod Transmit
pub mod Vehicle
