-- ===== src/Node/Moves.antt =====
-- What a connection does at its turn, move by move, keeps the node sound.
use ion_cluster.Base.{
  ℕ, ◌≤◌, ◌<◌, ◌≡◌, refl, sym, ◌≢◌, ◌∙◌, inl, inr, String, some, List, lookup, length, get_elem?,
  set, [], ◌⊎◌, length-set, get_elem?-set, All, All-set, All-get_elem?, arith, ap, subst,
}
use ion_cluster.Session.{Sfu, Session, Chan, update_presence_meta_for_peer}
use ion_cluster.Session.Bounds.{IsBounded, update-All}
use ion_cluster.Coordinator.{World, Coordinator, CoordinatorLaws, Extends, with_session}
use ion_cluster.Rpc.{PeerApi, Conn}
use ion_cluster.Rpc.Acts.{updated}
use ion_cluster.Node.{Node, at_turn, after_turn}
use ion_cluster.Node.Peers.{Alive, Reads, Alive-set}
use ion_cluster.Node.Turns.{
  Points, PointsAll, PointsAll-grow, Lists, IsSound, turn-IsSound, Extends-Lists, Extends-length,
}

module _ {S : Sfu} {P : PeerApi S} {C : Type 0} where
  -- Work on one session: its own list has to be looked at, the others stay.
  pub with_session-Lists :
      (conns conns' : List (Conn S P C)) (w : World S C) (r0 : ℕ) (s' : Session S)
      (chans' : List (Chan S))
      → Lists conns w
      → length w.chans ≤ length chans'
      → ((key : String) (ch : ℕ)
          → lookup key s'.broadcast_listeners ≡ some ch
          → (ch < length chans') × Alive key r0 conns')
      → ((r : ℕ) (key : String) → r0 ≢ r → Alive key r conns → Alive key r conns')
      → Lists conns' (with_session r0 s' chans' w)
  with_session-Lists conns conns' w r0 s' chans' h more own others r s key ch there listed =
      elim (get_elem?-set w.sessions r0 r s' s there) [
        | inl (same, is) ↦
            let (fits, alive) =
              own key ch (ap (λ x. lookup key x.broadcast_listeners) (sym is) ∙ listed) in
            (fits, subst (λ q. Alive key q conns') same alive)
        | inr (ne, old) ↦
            let (fits, alive) = h r s key ch old listed in
            (omega (arith, fits, more), others r key ne alive)
      ]

  -- A connection that keeps its goroutines, and its peer's id if it has one of them, is as good as before.
  pub Alive-kept :
      (i : ℕ) (k k' : Conn S P C) (conns : List (Conn S P C))
      → get_elem? conns i ≡ some k
      → (k.listeners ≡ []) ⊎ (P.id k'.peer ≡ P.id k.peer)
      → ((r : ℕ) → Reads r k.listeners → Reads r k'.listeners)
      → (r : ℕ) (key : String) → Alive key r conns
      → Alive key r (set conns i k')
  Alive-kept i k k' conns here (inr id) reads r key =
      Alive-set key r i k k' conns here λ h. (id ∙ h.0, reads r h.1)
  Alive-kept i k k' conns here (inl none_runs) reads r key =
      Alive-set key r i k k' conns here λ h. absurd (subst (Reads r) none_runs h.1)

module _ {S : Sfu} {P : PeerApi S} {C : Type 0} {c : Coordinator S C}
    (L : CoordinatorLaws S C c) where
  pub at_turn-IsSound :
      (n : Node S P C) (i : ℕ) (k : Conn S P C)
      → IsSound L n
      → get_elem? n.conns i ≡ some k
      → IsSound L (after_turn n.conns i (at_turn n.world k))
  at_turn-IsSound n i k h here =
      turn-IsSound L n i (at_turn n.world k) h h.valid h.bounded (omega arith) (omega arith)
        (All-get_elem? (PointsAll n.world) n.conns i k here h.points)
        λ r s key ch there listed.
          let (fits, alive) = h.lists r s key ch there listed in
          (fits, Alive-kept i k (at_turn n.world k) n.conns here (inr refl) (λ q x. x) r key alive)

module _ {S : Sfu} {P : PeerApi S} {C : Type 0} {c : Coordinator S C} (L : CoordinatorLaws S C c)
    (conns : List (Conn S P C)) (i : ℕ) (j : Conn S P C) (here : get_elem? conns i ≡ some j)
    (h : IsSound L (record { conns = conns; world = j.world })) where
  own : PointsAll j.world j
  own = All-get_elem? (PointsAll j.world) conns i j here h.points

  pub keeps-IsSound :
      (j' : Conn S P C)
      → j'.world ≡ j.world
      → j'.listeners ≡ j.listeners
      → (j.listeners ≡ []) ⊎ (P.id j'.peer ≡ P.id j.peer)
      → IsSound L (after_turn conns i j')
  keeps-IsSound j' same kept id = record {
    valid = subst L.IsValid (sym same) h.valid;
    bounded = subst (λ w. All IsBounded w.chans) (sym same) h.bounded;
    points =
        subst (λ w. All (PointsAll w) (set conns i j')) (sym same)
          (All-set (PointsAll j.world) conns i j' h.points
            (subst (All (Points j.world)) (sym kept) own));
    lists = subst (Lists (set conns i j')) (sym same) λ r s key ch there listed.
        let (fits, alive) = h.lists r s key ch there listed in
        (fits, Alive-kept i j j' conns here id (λ q. subst (Reads q) (sym kept)) r key alive);
  }

  pub extends-IsSound :
      (w : World S C)
      → Extends j.world w
      → L.IsValid w
      → IsSound L (after_turn conns i (record j { world = w }))
  extends-IsSound w e valid =
      let more = Extends-length j.world w e in
      let more' : length j.world.chans ≤ length w.chans = omega (arith, ap length e.chans) in
      turn-IsSound L (record { conns = conns; world = j.world }) i (record j { world = w }) h valid
        (subst (All IsBounded) (sym e.chans) h.bounded) more more'
        (PointsAll-grow j.world w j more more' own)
        λ r s key ch there listed.
          let (fits, alive) = Extends-Lists L conns j.world w e h.lists r s key ch there listed in
          (
            fits,
            Alive-kept i j (record j { world = w }) conns here (inr refl) (λ q x. x) r key alive,
          )

  pub updated-IsSound :
      (pod : String) (meta : S.Value) (r0 : ℕ) (s : Session S)
      → get_elem? j.world.sessions r0 ≡ some s
      → IsSound L (after_turn conns i (updated c L pod meta r0 s j))
  unfolding update_presence_meta_for_peer
  updated-IsSound pod meta r0 s there =
      let k' : Conn S P C = updated c L pod meta r0 s j in
      let (bounded, same) = update-All pod (P.id j.peer) (some meta) s j.world.chans h.bounded in
      let more : length j.world.sessions ≤ length k'.world.sessions = omega (
        arith,
        length-set j.world.sessions r0
            (update_presence_meta_for_peer pod (P.id j.peer) (some meta) s j.world.chans).0,
      ) in
      let more' : length j.world.chans ≤ length k'.world.chans = omega (arith, same) in
      let alive = Alive-kept i j k' conns here (inr refl) (λ q x. x) in
      turn-IsSound L (record { conns = conns; world = j.world }) i k' h
        (L.with_session-IsValid r0 s _ _ _ h.valid there refl) bounded more more'
        (PointsAll-grow j.world k'.world j more more' own)
        (with_session-Lists conns (set conns i k') j.world r0 _ _ h.lists more'
          (λ key ch listed.
            let (fits, lives) = h.lists r0 s key ch there listed in
            (omega (arith, fits, more'), alive r0 key lives))
          (λ r key ne. alive r key))
