-- ===== src/Commands/Leaving.antt =====
-- cmd/server.go with the gauges of pkg/server.go: which clients a server command leaves behind.
mod Tests
use ion_cluster.Base.{
  ◌≡◌, refl, sym, ◌∙◌, ap, subst, inl, inr, ◌⊎◌, String, Bool, true, false, Option, List, [], ◌∷◌,
  ◌++◌, map, All, Any, length,
}
use ion_cluster.Base.Int.{pos}
use ion_cluster.Config.{SignalConfig}
use ion_cluster.Metrics.{Gauges, active_clients_count}
use ion_cluster.Session.{Sfu}
use ion_cluster.Auth.{JwtApi}
use ion_cluster.Coordinator.{Result, ok, err, World, Coordinator, CoordinatorLaws}
use ion_cluster.Server.{Served}
use ion_cluster.Server.Active.{Life, active_clients-open}
use ion_cluster.Shutdown.{Event, signals, ticks, idle, serve}
use ion_cluster.Shutdown.Draining.{serve-idle}
use ion_cluster.Commands.Serving.{Listening, runs, server_main}

map_head :
    {A B : Type 0} (f : A → B) (Q : A → Type 0) (ms : List A) (before : List B) (x : B)
    (after : List B)
    → map f ms ≡ before ++ x ∷ after
    → All Q ms
    → Any (λ m. (f m ≡ x) × Q m) ms
map_head f Q [] [] x after e h = absurd (cc)
map_head f Q [] (y ∷ before) x after e h = absurd (cc)
map_head f Q (m ∷ ms) [] x after e (q, h) = inl (cc, q)
map_head f Q (m ∷ ms) (y ∷ before) x after e (q, h) = inr (map_head f Q ms before x after (cc) h)

Any-map :
    {A : Type 0} (Q R : A → Type 0) (ms : List A) → ((m : A) → Q m → R m) → Any Q ms → Any R ms
Any-map Q R [] f h = h
Any-map Q R (m ∷ ms) f (inl q) = inl (f m q)
Any-map Q R (m ∷ ms) f (inr h) = inr (Any-map Q R ms f h)

none_open : (l : List Served) → pos (length l) ≡ pos 0 → l ≡ []
none_open [] e = refl
none_open (s ∷ l) e = absurd (cc)

-- An event of the loop, with the node at that time and its open connections.
pub record Moment (S : Sfu) (C : Type 0) : Type 0 where
  pub event : Event
  pub world : World S C
  pub kept : List Served

module _ {S : Sfu} {C : Type 0} where
  abbrev pub to_event : Moment S C → Event × Gauges
  to_event m = (m.event, m.world.gauges)

  -- The loop counts, and nothing is open.
  abbrev pub IsDeserted : Moment S C → Type 0
  IsDeserted m = ((m.event ≡ signals) ⊎ (m.event ≡ ticks)) × (m.kept ≡ [])

server_main-serve :
    {A : Type 0} (conf : SignalConfig) (a : A) (turn_enabled : Bool) (turn : Result (Unit {0}))
    (events : List (Event × Gauges)) (up : Option Listening)
    → server_main conf (ok a) turn_enabled turn events ≡ runs up idle
    → serve events ≡ idle
unfolding server_main
server_main-serve conf a false turn events up e = cc
server_main-serve conf a true (ok _) events up e = cc
server_main-serve conf a true (err _) events up e = absurd (cc)

module _ {S : Sfu} {C : Type 0} (T : JwtApi) (c : Coordinator S C) (L : CoordinatorLaws S C c)
    (parses : String → Bool) (config : SignalConfig) where
  -- The server command ends as idle, in whatever life of the node, only at a signal or a tick at which no
  -- websocket is open and no request is proxied.
  pub server_main-idle :
      {A : Type 0} (a : A) (turn_enabled : Bool) (turn : Result (Unit {0}))
      (moments : List (Moment S C)) (up : Option Listening)
      → All (λ m. Life T c L parses config m.world m.kept) moments
      → server_main config (ok a) turn_enabled turn (map to_event moments) ≡ runs up idle
      → Any IsDeserted moments
  server_main-idle a turn_enabled turn moments up lives e =
      let (before, event, g, after, is, counts, zero_) =
        serve-idle (map to_event moments) (server_main-serve config a turn_enabled turn _ up e) in
      Any-map _ IsDeserted moments
        (λ m h.
          let (_, _, all) = active_clients-open T c L parses config m.world m.kept h.1 in
          (
            subst (λ x. (x ≡ signals) ⊎ (x ≡ ticks)) (sym (ap (λ x. x.0) h.0)) counts,
            none_open m.kept (sym all ∙ ap (λ x. active_clients_count x.1) h.0 ∙ zero_),
          ))
        (map_head to_event _ moments before (event, g) after is lives)
