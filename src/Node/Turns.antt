-- ===== src/Node/Turns.antt =====
-- What one turn of a connection has to keep for the node to stay sound.
use ion_cluster.Base.{
  ℕ, ◌≤◌, ◌<◌, ◌≡◌, sym, ◌∙◌, inl, inr, String, some, List, [], ◌∷◌, lookup, length, get_elem?, set,
  All, All-set, All-map, get_elem?-snoc, get_elem?-set, length-append, arith, ap, subst,
}
use ion_cluster.Session.{Sfu, Session}
use ion_cluster.Session.Bounds.{IsBounded}
use ion_cluster.Coordinator.{World, Coordinator, CoordinatorLaws, Extends, Spends}
use ion_cluster.Rpc.{PeerApi, Listener, Conn}
use ion_cluster.Node.{Node, after_turn}
use ion_cluster.Node.Peers.{Alive}

module _ {S : Sfu} {C : Type 0} where
  -- A goroutine's session and channel are in memory.
  abbrev pub Points : World S C → Listener → Type 0
  Points w l = (l.session < length w.sessions) × (l.listen < length w.chans)

  pub Extends-length : (w w' : World S C) → Extends w w' → length w.sessions ≤ length w'.sessions
  Extends-length w w' e = elim e.grown [
    | inl same ↦ omega (arith, ap length same)
    | inr (new, more, _) ↦ omega (arith, ap length more, length-append w.sessions (new ∷ []))
  ]

module _ {S : Sfu} {P : PeerApi S} {C : Type 0} where
  -- What a session lists under a peer's id is a channel in memory, and a connection with that id has a
  -- goroutine on the session.
  abbrev pub Lists : List (Conn S P C) → World S C → Type 0
  Lists conns w =
      (r : ℕ) (s : Session S) (key : String) (ch : ℕ)
      → get_elem? w.sessions r ≡ some s
      → lookup key s.broadcast_listeners ≡ some ch
      → (ch < length w.chans) × Alive key r conns

  abbrev pub PointsAll : World S C → Conn S P C → Type 0
  PointsAll w k = All (Points w) k.listeners

module _ {S : Sfu} {P : PeerApi S} {C : Type 0} {c : Coordinator S C}
    (L : CoordinatorLaws S C c) where
  pub record IsSound (n : Node S P C) : Type 0 where
    pub valid : L.IsValid n.world
    pub bounded : All IsBounded n.world.chans
    pub points : All (PointsAll n.world) n.conns
    pub lists : Lists n.conns n.world

module _ {S : Sfu} {P : PeerApi S} {C : Type 0} where
  pub PointsAll-grow :
      (w w' : World S C) (k : Conn S P C)
      → length w.sessions ≤ length w'.sessions
      → length w.chans ≤ length w'.chans
      → PointsAll w k
      → PointsAll w' k
  PointsAll-grow w w' k more more' h =
      All-map (Points w) (Points w') k.listeners (λ l p. (omega (arith, p.0), omega (arith, p.1))) h

module _ {S : Sfu} {P : PeerApi S} {C : Type 0} {c : Coordinator S C}
    (L : CoordinatorLaws S C c) where
  pub turn-IsSound :
      (n : Node S P C) (i : ℕ) (k' : Conn S P C)
      → IsSound L n
      → L.IsValid k'.world
      → All IsBounded k'.world.chans
      → length n.world.sessions ≤ length k'.world.sessions
      → length n.world.chans ≤ length k'.world.chans
      → PointsAll k'.world k'
      → Lists (set n.conns i k') k'.world
      → IsSound L (after_turn n.conns i k')
  turn-IsSound n i k' h valid bounded more more' own lists = record {
    valid = valid;
    bounded = bounded;
    points =
        All-set (PointsAll k'.world) n.conns i k'
          (All-map (PointsAll n.world) (PointsAll k'.world) n.conns
            (λ k p. PointsAll-grow n.world k'.world k more more' p) h.points)
          own;
    lists = lists;
  }

  -- The memory alone has changed.
  pub memory-IsSound :
      (n : Node S P C) (w : World S C)
      → IsSound L n
      → L.IsValid w
      → w.chans ≡ n.world.chans
      → length n.world.sessions ≤ length w.sessions
      → Lists n.conns w
      → IsSound L (record n { world = w })
  memory-IsSound n w h valid chans more lists = record {
    valid = valid;
    bounded = subst (All IsBounded) (sym chans) h.bounded;
    points =
        All-map (PointsAll n.world) (PointsAll w) n.conns
          (λ k p. PointsAll-grow n.world w k more (omega (arith, ap length chans)) p) h.points;
    lists = lists;
  }

  -- A session that nobody listens to lists nobody.
  pub Extends-Lists :
      (conns : List (Conn S P C)) (w w' : World S C) → Extends w w' → Lists conns w → Lists conns w'
  Extends-Lists conns w w' e h r s key ch there listed = elim e.grown [
    | inl same ↦
        let (small, alive) = h r s key ch (ap (λ l. get_elem? l r) (sym same) ∙ there) listed in
        (omega (arith, small, ap length e.chans), alive)
    | inr (new, more, nobody) ↦
        elim (get_elem?-snoc w.sessions new r s (ap (λ l. get_elem? l r) (sym more) ∙ there)) [
          | inl is_new ↦ absurd (ground (arith, nobody, is_new, listed))
          | inr old ↦
              let (small, alive) = h r s key ch old listed in
              (omega (arith, small, ap length e.chans), alive)
        ]
  ]

  pub Spends-Lists :
      (conns : List (Conn S P C)) (w w' : World S C) → Spends w w' → Lists conns w → Lists conns w'
  Spends-Lists conns w w' e h r s key ch there listed =
      let small : length w'.chans ≡ length w.chans = ap length e.chans in
      elim (get_elem?-set w.sessions e.ended r _ s
        (ap (λ l. get_elem? l r) (sym e.spent) ∙ there)) [
          | inl (same, is) ↦
              let old : get_elem? w.sessions r ≡ some e.object =
                ap (get_elem? w.sessions) (sym same) ∙ e.there in
              let was : lookup key e.object.broadcast_listeners ≡ some ch =
                ap (λ x. lookup key x.broadcast_listeners) (sym is) ∙ listed in
              let (fits, alive) = h r e.object key ch old was in (omega (arith, fits, small), alive)
          | inr (_, old) ↦
              let (fits, alive) = h r s key ch old listed in (omega (arith, fits, small), alive)
        ]
