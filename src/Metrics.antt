-- ===== src/Metrics.antt =====
-- pkg/metrics.go: the gauges of a node, and the number of its active clients.
-- A gauge is a float64 that only steps of one move, so it is an integer.
use ion_cluster.Base.Int.{ℤ, pos, ◌+ℤ◌}

pub record Gauges : Type 0 where
  pub sessions : ℤ
  pub clients : ℤ
  pub proxy_clients : ℤ

unfoldable pub new_gauges : Gauges
new_gauges = record { sessions = pos 0; clients = pos 0; proxy_clients = pos 0 }

unfoldable pub active_clients_count : Gauges → ℤ
active_clients_count g = g.clients +ℤ g.proxy_clients
