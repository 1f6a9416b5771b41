-- ===== src/Node/Bound.antt =====
-- Who has a goroutine has joined: an invariant of every step of the node.
use ion_cluster.Base.{
  ℕ, ◌≡◌, refl, ◌∙◌, String, Bool, true, false, some, get_elem?, set, All, All-snoc, All-set,
  All-get_elem?, inl, inr, arith, ap, subst,
}
use ion_cluster.Config.{SignalConfig}
use ion_cluster.Session.{Sfu}
use ion_cluster.Auth.{JwtApi}
use ion_cluster.Coordinator.{Coordinator, CoordinatorLaws}
use ion_cluster.Rpc.{
  PeerApi, Listener, Conn, Outcome, done, handle, deliver, on_offer, on_ice_candidate,
  on_ice_connection_state_change, stop,
}
use ion_cluster.Rpc.Acts.{PeerLaws, IsBound, SamePeer, Acts, Acts-IsBound}
use ion_cluster.Rpc.Handling.{Every, handle-Acts}
use ion_cluster.Node.{Node, new_conn, at_turn, remove_at, Step}
use ion_cluster.Node.Turns.{IsSound}

module _ {S : Sfu} {P : PeerApi S} {C : Type 0} where
  deliver-same :
      (l : Listener) (k : Conn S P C)
      → ((deliver l k).listeners ≡ k.listeners) × ((deliver l k).peer ≡ k.peer)
  unfolding deliver
  deliver-same l k = ground arith

module _ {S : Sfu} {P : PeerApi S} {C : Type 0} (I : PeerLaws P) where
  pub state_change-keeps :
      (gone : Bool) (k : Conn S P C)
      → let k' : Conn S P C = on_ice_connection_state_change gone k in
        (k'.world ≡ k.world) × (k'.listeners ≡ k.listeners) × SamePeer I k k'
  unfolding on_ice_connection_state_change
  state_change-keeps true k = (refl, refl, I.close-keeps k.peer)
  state_change-keeps false k = (refl, refl, (refl, refl))

  pub from_outcome :
      (c : Coordinator S C) (L : CoordinatorLaws S C c) (Q : Conn S P C → Type 0)
      (o : Outcome (Conn S P C)) (k : Conn S P C)
      → Every I c L Q o
      → o ≡ done k
      → Q k
  from_outcome c L Q o k Every.panicked e = absurd (cc)
  from_outcome c L Q o k (Every.ended k' q) e = subst Q (cc) q

module _ {S : Sfu} {P : PeerApi S} {C : Type 0} (T : JwtApi) (c : Coordinator S C)
    (L : CoordinatorLaws S C c) (I : PeerLaws P) (parses : String → Bool) (config : SignalConfig)
    (pod : String) where
  -- One connection has changed, and its peer has joined if it has a goroutine.
  set-IsBound :
      (n : Node S P C) (i : ℕ) (k k' : Conn S P C)
      → All (IsBound I) n.conns
      → get_elem? n.conns i ≡ some k
      → (IsBound I k → IsBound I k')
      → All (IsBound I) (set n.conns i k')
  set-IsBound n i k k' b there f =
      All-set (IsBound I) n.conns i k' b (f (All-get_elem? (IsBound I) n.conns i k there b))

  pub Step-IsBound :
      (n n' : Node S P C)
      → IsSound L n
      → All (IsBound I) n.conns
      → Step T c L parses config pod n n'
      → All (IsBound I) n'.conns
  unfolding on_offer on_ice_candidate stop
  Step-IsBound n n' h b (Step.asks r s w served not) = b
  Step-IsBound n n' h b (Step.connects r p w served) =
      All-snoc (IsBound I) n.conns (new_conn p w) b (inl refl)
  Step-IsBound n n' h b (Step.finishes s) = b
  Step-IsBound n n' h b (Step.requests i k k' req there went) =
      set-IsBound n i k k' b there λ bound.
        Acts-IsBound I c L
          (from_outcome I c L (Acts I c L (at_turn n.world k))
            (handle c pod req (at_turn n.world k)) k'
            (handle-Acts I c L pod req (at_turn n.world k) h.valid bound) went)
          bound
  Step-IsBound n n' h b (Step.offers i k d there) = set-IsBound n i k _ b there λ bound. bound
  Step-IsBound n n' h b (Step.finds_candidate i k x target there) =
      set-IsBound n i k _ b there λ bound. bound
  Step-IsBound n n' h b (Step.changes_state i k gone there) = set-IsBound n i k _ b there λ bound.
      let (_, listeners, (_, same)) = state_change-keeps I gone (at_turn n.world k) in
      elim bound [ inl none_runs ↦ inl (listeners ∙ none_runs) | inr q ↦ inr (same ∙ q) ]
  Step-IsBound n n' h b (Step.delivers i j k l there this) = set-IsBound n i k _ b there λ bound.
      let (listeners, peer) = deliver-same l (at_turn n.world k) in
      elim bound [
        | inl none_runs ↦ inl (listeners ∙ none_runs)
        | inr q ↦ inr (ap I.joined peer ∙ q)
      ]
  Step-IsBound n n' h b (Step.stops i j k l there this) =
      set-IsBound n i k _ b there
        λ bound. elim bound [ inl none_runs ↦ inl (ap (remove_at j) none_runs) | inr q ↦ inr q ]
  Step-IsBound n n' h b (Step.closes w e) = b
