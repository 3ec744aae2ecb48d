-- ===== src/Pool/Health.antt =====
-- What `health_snapshot` says.
use infly.Pool.State.{Pool}
