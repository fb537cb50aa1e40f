-- ===== src/Util.antt =====
-- The folder util/.
pub mod CronJob
pub mod IpHelper
