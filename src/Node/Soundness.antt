-- ===== src/Node/Soundness.antt =====
-- The node stays sound: whatever its connections do, in whatever order they take their turns.
use ion_cluster.Base.{
  ℕ, ◌≡◌, refl, sym, ◌∙◌, String, Bool, none, some, List, [], ◌∷◌, ◌++◌, length, get_elem?,
  get_elem?-set_self, set, set-set, length-set, All, All-snoc, All-get_elem?, ◌⊎◌, inl, inr, arith,
  ap, subst,
}
use ion_cluster.Config.{SignalConfig}
use ion_cluster.Session.{Sfu, Session}
use ion_cluster.Session.Bounds.{IsBounded}
use ion_cluster.Auth.{JwtApi}
use ion_cluster.Coordinator.{World, Coordinator, CoordinatorLaws, Extends}
use ion_cluster.Rpc.{
  PeerApi, Listener, Conn, handle, on_offer, on_ice_candidate, on_ice_connection_state_change,
}
use ion_cluster.Rpc.Acts.{PeerLaws, IsBound, KeepsPeer, Acts}
use ion_cluster.Rpc.Handling.{handle-Acts}
use ion_cluster.Server.{finish}
use ion_cluster.Server.Memory.{serve_websocket-Serves, finish-Serves}
use ion_cluster.Node.{Node, new_conn, at_turn, after_turn, ended, Step, Reach}
use ion_cluster.Node.Bound.{from_outcome, state_change-keeps, Step-IsBound}
use ion_cluster.Node.Peers.{Alive-snoc}
use ion_cluster.Node.Turns.{
  Points, PointsAll, IsSound, memory-IsSound, Extends-Lists, Extends-length, Spends-Lists,
}
use ion_cluster.Node.Moves.{at_turn-IsSound, keeps-IsSound, extends-IsSound, updated-IsSound}
use ion_cluster.Node.Goroutines.{subscribed-IsSound, deliver-IsSound, stop-IsSound}

id_kept :
    {S : Sfu} {P : PeerApi S} {C : Type 0} (I : PeerLaws P) (j j' : Conn S P C)
    → KeepsPeer I j j'
    → (j.listeners ≡ []) ⊎ (P.id j'.peer ≡ P.id j.peer)
id_kept I j j' (inl none_runs) = inl none_runs
id_kept I j j' (inr (id, _)) = inr id

module _ {S : Sfu} {P : PeerApi S} {C : Type 0} {c : Coordinator S C}
    (L : CoordinatorLaws S C c) where
  abbrev Sound : List (Conn S P C) → ℕ → Conn S P C → Type 0
  Sound conns i k = IsSound L (after_turn conns i k)

  -- From a lemma on one move to the same on a move that follows others at the same turn.
  again :
      (conns : List (Conn S P C)) (i : ℕ) (j j' : Conn S P C)
      → Sound (set conns i j) i j'
      → Sound conns i j'
  again conns i j j' h =
      subst (λ l. IsSound L (record { conns = l; world = j'.world })) (set-set conns i j j') h

  Acts-Sound :
      (I : PeerLaws P) (conns : List (Conn S P C)) (i : ℕ) (o k k' : Conn S P C)
      (there : get_elem? conns i ≡ some o)
      → Acts I c L k k'
      → Sound conns i k
      → Sound conns i k'
  Acts-Sound I conns i o k k' there Acts.here h = h
  Acts-Sound I conns i o k k' there (Acts.keeps {j} _ a w ls p) h = again conns i j k' (
      keeps-IsSound L (set conns i j) i j (get_elem?-set_self conns i o j there)
        (Acts-Sound I conns i o k j there a h) k' w ls (id_kept I j k' p))
  Acts-Sound I conns i o k k' there (Acts.extends {j} w a e v) h = again conns i j k' (
      extends-IsSound L (set conns i j) i j (get_elem?-set_self conns i o j there)
        (Acts-Sound I conns i o k j there a h) w e v)
  Acts-Sound I conns i o k k' there (Acts.subscribes {j} r s a q at) h = again conns i j k' (
      subscribed-IsSound L (set conns i j) i j (get_elem?-set_self conns i o j there)
        (Acts-Sound I conns i o k j there a h) r s at)
  Acts-Sound I conns i o k k' there (Acts.updates {j} pod meta r s a at) h = again conns i j k' (
      updated-IsSound L (set conns i j) i j (get_elem?-set_self conns i o j there)
        (Acts-Sound I conns i o k j there a h) pod meta r s at)

  -- One move of a connection at its turn.
  turn_then :
      (n : Node S P C) (i : ℕ) (k k' : Conn S P C)
      → IsSound L n
      → get_elem? n.conns i ≡ some k
      → (let j : Conn S P C = at_turn n.world k in
          let conns : List (Conn S P C) = set n.conns i j in
          get_elem? conns i ≡ some j
          → IsSound L (record { conns = conns; world = j.world })
          → Sound conns i k')
      → Sound n.conns i k'
  turn_then n i k k' h there move = again n.conns i (at_turn n.world k) k' (
      move (get_elem?-set_self n.conns i k (at_turn n.world k) there)
        (at_turn-IsSound L n i k h there))

  -- A new connection has no goroutine yet.
  connects-IsSound :
      (n : Node S P C) (k : Conn S P C)
      → IsSound L n
      → k.listeners ≡ []
      → IsSound L (record n { conns = n.conns ++ k ∷ [] })
  connects-IsSound n k h fresh = record {
    valid = h.valid;
    bounded = h.bounded;
    points =
        All-snoc (PointsAll n.world) n.conns k h.points
          (subst (All (Points n.world)) (sym fresh) tt);
    lists = λ r s key ch there listed.
        let (fits, alive) = h.lists r s key ch there listed in
        (fits, Alive-snoc key r k n.conns alive);
  }

  -- The coordinator or the server has worked on the memory.
  grows-IsSound :
      (n : Node S P C) (w : World S C)
      → IsSound L n
      → Extends n.world w
      → L.IsValid w
      → IsSound L (record n { world = w })
  grows-IsSound n w h e valid =
      memory-IsSound L n w h valid e.chans (Extends-length n.world w e)
        (Extends-Lists L n.conns n.world w e h.lists)

  ends-IsSound :
      (n : Node S P C) (w : World S C)
      → IsSound L n
      → L.Ends n.world w
      → IsSound L (record n { world = w })
  ends-IsSound n w h e =
      let s = L.Ends-Spends n.world w e in
      memory-IsSound L n w h (L.Ends-IsValid n.world w e h.valid) s.chans
        (omega (
          arith,
          ap length s.spent,
          length-set n.world.sessions s.ended (record s.object { on_close = none }),
        ))
        (Spends-Lists L n.conns n.world w s h.lists)

module _ {S : Sfu} {P : PeerApi S} {C : Type 0} (T : JwtApi) (c : Coordinator S C)
    (L : CoordinatorLaws S C c) (I : PeerLaws P) (parses : String → Bool) (config : SignalConfig)
    (pod : String) where
  pub stops-IsSound :
      (n : Node S P C) (i j : ℕ) (k : Conn S P C) (l : Listener)
      → IsSound L n
      → get_elem? n.conns i ≡ some k
      → get_elem? k.listeners j ≡ some l
      → IsSound L (after_turn n.conns i (ended pod j l (at_turn n.world k)))
  stops-IsSound n i j k l h there this =
      turn_then L n i k _ h there λ at sound. stop-IsSound L _ i _ at sound pod j l this

  pub Step-IsSound :
      (n n' : Node S P C)
      → IsSound L n
      → All (IsBound I) n.conns
      → Step T c L parses config pod n n'
      → IsSound L n'
  unfolding on_offer on_ice_candidate on_ice_connection_state_change
  Step-IsSound n n' h b (Step.asks r s w served not) =
      let (e, valid) = serve_websocket-Serves T c L parses config r n.world in
      grows-IsSound L n w h (subst (Extends n.world) (ap (λ x. x.1) served) e)
        (subst L.IsValid (ap (λ x. x.1) served) (valid h.valid))
  Step-IsSound n n' h b (Step.connects r p w served) =
      let (e, valid) = serve_websocket-Serves T c L parses config r n.world in
      connects-IsSound L (record n { world = w }) (new_conn p w)
        (grows-IsSound L n w h (subst (Extends n.world) (ap (λ x. x.1) served) e)
          (subst L.IsValid (ap (λ x. x.1) served) (valid h.valid)))
        refl
  Step-IsSound n n' h b (Step.finishes s) =
      let (e, valid) = finish-Serves T c L parses config s n.world in
      grows-IsSound L n (finish s n.world) h e (valid h.valid)
  Step-IsSound n n' h b (Step.requests i k k' req there went) =
      let acted : Acts I c L (at_turn n.world k) k' =
        from_outcome I c L (Acts I c L (at_turn n.world k)) (handle c pod req (at_turn n.world k))
          k'
          (handle-Acts I c L pod req (at_turn n.world k) h.valid
            (All-get_elem? (IsBound I) n.conns i k there b))
          went in
      Acts-Sound L I n.conns i k (at_turn n.world k) k' there acted
        (at_turn-IsSound L n i k h there)
  Step-IsSound n n' h b (Step.offers i k d there) = turn_then L n i k _ h there λ at sound.
      keeps-IsSound L _ i _ at sound (on_offer d (at_turn n.world k)) refl refl (inr refl)
  Step-IsSound n n' h b (Step.finds_candidate i k x target there) =
      turn_then L n i k _ h there λ at sound.
        keeps-IsSound L _ i _ at sound (on_ice_candidate x target (at_turn n.world k)) refl refl
          (inr refl)
  Step-IsSound n n' h b (Step.changes_state i k gone there) =
      turn_then L n i k _ h there λ at sound.
        let (world, listeners, (id, _)) = state_change-keeps I gone (at_turn n.world k) in
        keeps-IsSound L _ i _ at sound (on_ice_connection_state_change gone (at_turn n.world k))
          world listeners (inr id)
  Step-IsSound n n' h b (Step.delivers i j k l there this) =
      turn_then L n i k _ h there λ at sound. deliver-IsSound L _ i _ at sound l
  Step-IsSound n n' h b (Step.stops i j k l there this) = stops-IsSound n i j k l h there this
  Step-IsSound n n' h b (Step.closes w e) = ends-IsSound L n w h e

  -- The node is sound, and whoever has a goroutine has joined.
  abbrev IsSoundAndBound : Node S P C → Type 0
  IsSoundAndBound n = IsSound L n × All (IsBound I) n.conns

  Reach-IsSoundAndBound :
      (n0 : Node S P C)
      → IsSoundAndBound n0
      → (n : Node S P C) → Reach T c L parses config pod n0 n
      → IsSoundAndBound n
  Reach-IsSoundAndBound n0 start n Reach.here = start
  Reach-IsSoundAndBound n0 start n (Reach.next reached step) =
      let (h, b) = Reach-IsSoundAndBound n0 start _ reached in
      (Step-IsSound _ n h b step, Step-IsBound T c L I parses config pod _ n h b step)

  empty-IsSound :
      (w : World S C)
      → L.IsValid w
      → w.sessions ≡ []
      → w.chans ≡ []
      → let n : Node S P C = record { conns = []; world = w } in IsSound L n
  empty-IsSound w valid empty unused = record {
    valid = valid;
    bounded = subst (All IsBounded) (sym unused) tt;
    points = tt;
    lists = λ r s key ch there listed.
        absurd (nowhere r s (ap (λ l. get_elem? l r) (sym empty) ∙ there));
  }
    where
      nowhere : (r : ℕ) (s : Session S) → get_elem? {A = Session S} [] r ≡ some s → ⊥
      nowhere r s e = cc

  -- Over a coordinator that keeps its laws and peers that keep the id of their join, a node whose memory is
  -- valid and has no session and no channel, and which no connection has reached yet, is sound after every sequence
  -- of steps: the memory is valid, no channel holds more than its capacity, each goroutine's session and
  -- channel are in memory, and each id that a session lists stands for a channel in memory and is the id
  -- of a connection with a goroutine on that session.
  pub Reach-IsSound :
      (w : World S C)
      → L.IsValid w
      → w.sessions ≡ []
      → w.chans ≡ []
      → (n : Node S P C) → Reach T c L parses config pod (record { conns = []; world = w }) n
      → IsSound L n
  Reach-IsSound w valid empty unused n reached =
      (Reach-IsSoundAndBound _ (empty-IsSound w valid empty unused, tt) n reached).0
