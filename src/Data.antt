-- ===== src/Data.antt =====
-- Package data: databases, service health, and the texts that they send.
pub mod Interpolate
pub mod ConnOptimize
pub mod Keepalive
pub mod Database
pub mod Json
pub mod HttpHelper
pub mod RabbitConsumer
pub mod Uamqp
