-- ===== src/Node/Draining.antt =====
-- The ends of the goroutines empty the sessions' lists.
use ion_cluster.Base.{
  ℕ, zero, suc, ◌+◌, ◌≡◌, refl, ◌⊎◌, inl, inr, String, Bool, some, List, [], ◌∷◌, lookup, length,
  get_elem?, set, All, Map, arith, ap, subst,
}
use mathlib.Core.Option.{some-injective}
use ion_cluster.Config.{SignalConfig}
use ion_cluster.Session.{Sfu, Session}
use ion_cluster.Auth.{JwtApi}
use ion_cluster.Coordinator.{World, Coordinator, CoordinatorLaws}
use ion_cluster.Rpc.{PeerApi, Listener, Conn}
use ion_cluster.Rpc.Acts.{PeerLaws}
use ion_cluster.Node.{Node, Reach, at_turn, after_turn, ended, remove_at}
use ion_cluster.Node.Peers.{Alive, Reads}
use ion_cluster.Node.Turns.{IsSound}
use ion_cluster.Node.Soundness.{Reach-IsSound, stops-IsSound}

module _ {S : Sfu} {P : PeerApi S} {C : Type 0} where
  abbrev pub IsIdle : Conn S P C → Type 0
  IsIdle k = k.listeners ≡ []

  -- How many goroutines still run.
  abbrev pub running : List (Conn S P C) → ℕ
  running [] = 0
  running (k ∷ ks) = length k.listeners + running ks

  record Busy (conns : List (Conn S P C)) : Type 0 where
    index : ℕ
    conn : Conn S P C
    first : Listener
    rest : List Listener
    there : get_elem? conns index ≡ some conn
    runs : conn.listeners ≡ first ∷ rest

  find-Busy : (conns : List (Conn S P C)) → All IsIdle conns ⊎ Busy conns
  find-Busy [] = inl tt
  find-Busy (k ∷ ks) = by_listeners k.listeners refl (find-Busy ks)
    where
      by_listeners :
          (ls : List Listener)
          → k.listeners ≡ ls
          → All IsIdle ks ⊎ Busy ks
          → All IsIdle (k ∷ ks) ⊎ Busy (k ∷ ks)
      by_listeners (l ∷ ls) e found =
          inr (record { index = 0; conn = k; first = l; rest = ls; there = refl; runs = e })
      by_listeners [] e (inl idle) = inl (e, idle)
      by_listeners [] e (inr b) = inr (record {
        index = suc b.index;
        conn = b.conn;
        first = b.first;
        rest = b.rest;
        there = b.there;
        runs = b.runs;
      })

  running-set :
      (conns : List (Conn S P C)) (i : ℕ) (k k' : Conn S P C)
      → get_elem? conns i ≡ some k
      → suc (length k'.listeners) ≡ length k.listeners
      → suc (running (set conns i k')) ≡ running conns
  running-set [] i k k' e h = absurd (cc)
  running-set (x ∷ xs) zero k k' e h =
      omega (arith, h, ap (λ y. length y.listeners) (some-injective x k e))
  running-set (x ∷ xs) (suc i) k k' e h = omega (arith, running-set xs i k k' e h)

  -- An idle connection keeps no peer in a list.
  Alive-idle :
      (key : String) (r : ℕ) (conns : List (Conn S P C)) → All IsIdle conns → Alive key r conns → ⊥
  Alive-idle key r [] idle h = h
  Alive-idle key r (k ∷ ks) (e, idle) (inl (_, reads)) = subst (Reads r) e reads
  Alive-idle key r (k ∷ ks) (e, idle) (inr h) = Alive-idle key r ks idle h

-- A map in which no key is found is empty.
nothing_found : (m : Map ℕ) → ((key : String) (ch : ℕ) → lookup key m ≡ some ch → ⊥) → m ≡ []
nothing_found [] h = refl
nothing_found ((k, ch) ∷ m) h = absurd (h k ch (ground arith))

length-remove_at :
    (j : ℕ) (l : Listener) (ls : List Listener)
    → get_elem? ls j ≡ some l
    → suc (length (remove_at j ls)) ≡ length ls
length-remove_at j l [] e = absurd (cc)
length-remove_at zero l (x ∷ ls) e = refl
length-remove_at (suc j) l (x ∷ ls) e = omega (arith, length-remove_at j l ls e)

-- A number of goroutines have ended, one after another.
pub data Stops {S : Sfu} {P : PeerApi S} {C : Type 0} (pod : String) (n : Node S P C)
    : ℕ → Node S P C → Type 0 where
  none_stopped : Stops pod n 0 n
  stopped :
      {m : ℕ} {t : Node S P C} (i j : ℕ) (k : Conn S P C) (l : Listener)
      → Stops pod n m t
      → get_elem? t.conns i ≡ some k
      → get_elem? k.listeners j ≡ some l
      → Stops pod n (suc m) (after_turn t.conns i (ended pod j l (at_turn t.world k)))

module _ {S : Sfu} {P : PeerApi S} {C : Type 0} (pod : String) where
  Stops-running :
      (n : Node S P C) (m : ℕ) (t : Node S P C)
      → Stops pod n m t
      → m + running t.conns ≡ running n.conns
  Stops-running n _ _ none_stopped = omega arith
  Stops-running n _ _ (stopped {m} {t} i j k l before there this) = omega (
    arith,
    Stops-running n m t before,
    running-set t.conns i k (ended pod j l (at_turn t.world k)) there
        (length-remove_at j l k.listeners this),
  )

  another :
      (n : Node S P C) (m : ℕ) (t : Node S P C) (b : Busy t.conns)
      → Stops pod n m t
      → Stops pod n
          (suc m)
          (after_turn t.conns b.index (ended pod 0 b.first (at_turn t.world b.conn)))
  another n m t b h = stopped b.index 0 b.conn b.first h b.there (ap (λ ls. get_elem? ls 0) b.runs)

-- No session in memory lists a listener.
abbrev pub AreEmpty : {S : Sfu} → List (Session S) → Type 0
AreEmpty {S} sessions =
    (r : ℕ) (s : Session S) → get_elem? sessions r ≡ some s → s.broadcast_listeners ≡ []

module _ {S : Sfu} {P : PeerApi S} {C : Type 0} (T : JwtApi) (c : Coordinator S C)
    (L : CoordinatorLaws S C c) (I : PeerLaws P) (parses : String → Bool) (config : SignalConfig)
    (pod : String) where
  Stops-IsSound :
      (n : Node S P C) (m : ℕ) (t : Node S P C) → Stops pod n m t → IsSound L n → IsSound L t
  Stops-IsSound n _ _ none_stopped h = h
  Stops-IsSound n _ _ (stopped {m} {t} i j k l before there this) h =
      stops-IsSound T c L I parses config pod t i j k l (Stops-IsSound n m t before h) there this

  -- Over a coordinator that keeps its laws and peers that keep the id of their join, from every node
  -- that a node with a valid and empty memory and no connection has reached: however the goroutines end one after
  -- another, each end leaves one less of them, and then either another can end, or no connection has a
  -- goroutine and no session in memory lists a listener.
  pub Reach-drains :
      (w : World S C)
      → L.IsValid w
      → w.sessions ≡ []
      → w.chans ≡ []
      → (n : Node S P C) → Reach T c L parses config pod (record { conns = []; world = w }) n
      → (m : ℕ) (t : Node S P C) → Stops pod n m t
      → (m + running t.conns ≡ running n.conns)
        × (((t' : Node S P C) × Stops pod n (suc m) t')
            ⊎ (All IsIdle t.conns × AreEmpty t.world.sessions))
  Reach-drains w valid empty unused n reached m t stops =
      let sound = Reach-IsSound T c L I parses config pod w valid empty unused n reached in
      let h = Stops-IsSound n m t stops sound in
      (
        Stops-running pod n m t stops,
        elim (find-Busy t.conns) [
          | inr b ↦ inl (_, another pod n m t b stops)
          | inl idle ↦ inr (
            idle,
            λ r s there.
                nothing_found s.broadcast_listeners λ key ch listed.
                  Alive-idle key r t.conns idle (h.lists r s key ch there listed).1,
          )
        ],
      )
