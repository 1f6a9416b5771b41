-- ===== src/Shutdown/Tests.antt =====
-- cmd/server.go: a shutdown with one client, which leaves.
use ion_cluster.Base.{◌≡◌, refl, List, [], ◌∷◌}
use ion_cluster.Base.Int.{pos}
use ion_cluster.Metrics.{Gauges, active_clients_count}
use ion_cluster.Shutdown.{Event, signals, ticks, serve, drain, idle, forced}
use ion_cluster.Shutdown.Draining.{serve-ends}

abbrev one_client : Gauges
one_client = record { sessions = pos 1; clients = pos 1; proxy_clients = pos 0 }

abbrev nobody : Gauges
nobody = record { sessions = pos 1; clients = pos 0; proxy_clients = pos 0 }

abbrev patient : List (Event × Gauges)
patient = (signals, one_client) ∷ (ticks, one_client) ∷ (ticks, nobody) ∷ []

abbrev impatient : List (Event × Gauges)
impatient = (signals, one_client) ∷ (ticks, one_client) ∷ (signals, one_client) ∷ []

patient_ends : serve patient ≡ idle
unfolding serve drain active_clients_count
patient_ends = refl

impatient_ends : serve impatient ≡ forced
unfolding serve drain active_clients_count
impatient_ends = refl

nobody_active : active_clients_count nobody ≡ pos 0
unfolding active_clients_count
nobody_active = refl

serve-ends_example : serve patient ≡ idle
serve-ends_example = serve-ends one_client nobody ((ticks, one_client) ∷ []) [] refl nobody_active
