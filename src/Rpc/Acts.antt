-- ===== src/Rpc/Acts.antt =====
-- pkg/server_jsonrpc.go: what a request does to the node, as a series of small acts: the connection's
-- own affairs, a lookup at the coordinator, a subscription, an update of a presence.
use ion_cluster.Base.{
  ℕ, ◌≡◌, refl, sym, ◌∙◌, ◌⊎◌, inl, inr, Bool, true, subst, String, Option, some, [], ◌∷◌, ◌++◌,
  length, get_elem?,
}
use ion_cluster.Base.Int.{ℤ}
use ion_cluster.Session.{Sfu, Session, broadcast_add_listener, update_presence_meta_for_peer}
use ion_cluster.Coordinator.{
  Result, ok, Action, ◌>>=◌, modify, bind_cases, World, Coordinator, CoordinatorLaws, Extends,
  with_session,
}
use ion_cluster.Rpc.{PeerApi, Out, Conn, send, lift}

-- A peer has joined once a `Join` has succeeded, which gives it its id. A further `Join` is refused
-- and leaves the id, and so does everything else that is done with the peer.
pub record PeerLaws {S : Sfu} (P : PeerApi S) : Type 1 where
  pub joined : P.Peer → Bool
  pub join-joined :
      (sid uid : String) (found : Option (ℕ × S.TransportConfig)) (p : P.Peer)
      → (P.join sid uid found p).0 ≡ ok tt
      → joined (P.join sid uid found p).1 ≡ true
  pub join-again :
      (sid uid : String) (found : Option (ℕ × S.TransportConfig)) (p : P.Peer)
      → joined p ≡ true
      → (P.id (P.join sid uid found p).1 ≡ P.id p) × (joined (P.join sid uid found p).1 ≡ true)
  pub answer-keeps :
      (d : P.Description) (p : P.Peer)
      → (P.id (P.answer d p).1 ≡ P.id p) × (joined (P.answer d p).1 ≡ joined p)
  pub set_remote_description-keeps :
      (d : P.Description) (p : P.Peer)
      → (P.id (P.set_remote_description d p).1 ≡ P.id p)
        × (joined (P.set_remote_description d p).1 ≡ joined p)
  pub close-keeps : (p : P.Peer) → (P.id (P.close p) ≡ P.id p) × (joined (P.close p) ≡ joined p)
  pub trickle-keeps :
      (x : P.Candidate) (target : ℤ) (p : P.Peer)
      → (P.id (P.trickle x target p).1 ≡ P.id p) × (joined (P.trickle x target p).1 ≡ joined p)

module _ {S : Sfu} {P : PeerApi S} {C : Type 0} (I : PeerLaws P) where
  -- A connection that has a goroutine has a peer that has joined.
  abbrev pub IsBound : Conn S P C → Type 0
  IsBound k = (k.listeners ≡ []) ⊎ (I.joined k.peer ≡ true)

  -- The peer is the same one, by its id and by whether it has joined.
  abbrev pub SamePeer : Conn S P C → Conn S P C → Type 0
  SamePeer k k' = (P.id k'.peer ≡ P.id k.peer) × (I.joined k'.peer ≡ I.joined k.peer)

  -- The peer may be another only while the connection has no goroutine.
  abbrev pub KeepsPeer : Conn S P C → Conn S P C → Type 0
  KeepsPeer k k' = (k.listeners ≡ []) ⊎ SamePeer k k'

module _ {S : Sfu} {P : PeerApi S} {C : Type 0} (c : Coordinator S C)
    (L : CoordinatorLaws S C c) where
  -- The connection after it has subscribed to the session at an index.
  abbrev pub subscribed : ℕ → Session S → Conn S P C → Conn S P C
  subscribed r s j =
      let ch : ℕ = length j.world.chans in
      record j {
        listeners = j.listeners ++ record { session = r; listen = ch } ∷ [];
        world =
            with_session r (broadcast_add_listener (P.id j.peer) ch s)
              (j.world.chans ++ record { cap = 32; buffer = [] } ∷ []) j.world;
      }

  -- The connection after it has set its peer's presence in the session at an index.
  abbrev pub updated : String → S.Value → ℕ → Session S → Conn S P C → Conn S P C
  updated pod meta r s j =
      let done = update_presence_meta_for_peer pod (P.id j.peer) (some meta) s j.world.chans in
      record j { world = with_session r done.0 done.1 j.world }

module _ {S : Sfu} {P : PeerApi S} {C : Type 0} (I : PeerLaws P) (c : Coordinator S C)
    (L : CoordinatorLaws S C c) where
  pub data Acts (k : Conn S P C) : Conn S P C → Type 0 where
    here : Acts k k
    keeps :
        {j : Conn S P C} (j' : Conn S P C)
        → Acts k j
        → j'.world ≡ j.world
        → j'.listeners ≡ j.listeners
        → KeepsPeer I j j'
        → Acts k j'
    extends :
        {j : Conn S P C} (w : World S C)
        → Acts k j
        → Extends j.world w
        → L.IsValid w
        → Acts k (record j { world = w })
    subscribes :
        {j : Conn S P C} (r : ℕ) (s : Session S)
        → Acts k j
        → I.joined j.peer ≡ true
        → get_elem? j.world.sessions r ≡ some s
        → Acts k (subscribed c L r s j)
    updates :
        {j : Conn S P C} (pod : String) (meta : S.Value) (r : ℕ) (s : Session S)
        → Acts k j
        → get_elem? j.world.sessions r ≡ some s
        → Acts k (updated c L pod meta r s j)

  pub Acts-trans : {k j l : Conn S P C} → Acts k j → Acts j l → Acts k l
  Acts-trans a here = a
  Acts-trans a (keeps l b w ls i) = keeps l (Acts-trans a b) w ls i
  Acts-trans a (extends w b e v) = extends w (Acts-trans a b) e v
  Acts-trans a (subscribes r s b q h) = subscribes r s (Acts-trans a b) q h
  Acts-trans a (updates pod meta r s b h) = updates pod meta r s (Acts-trans a b) h

  pub Acts-IsValid : {k j : Conn S P C} → Acts k j → L.IsValid k.world → L.IsValid j.world
  unfolding broadcast_add_listener update_presence_meta_for_peer
  Acts-IsValid here v = v
  Acts-IsValid (keeps j' a w ls i) v = subst L.IsValid (sym w) (Acts-IsValid a v)
  Acts-IsValid (extends w a e u) v = u
  Acts-IsValid (subscribes r s a q h) v = L.with_session-IsValid r s _ _ _ (Acts-IsValid a v) h refl
  Acts-IsValid (updates pod meta r s a h) v =
      L.with_session-IsValid r s _ _ _ (Acts-IsValid a v) h refl

  pub Acts-IsBound : {k j : Conn S P C} → Acts k j → IsBound I k → IsBound I j
  Acts-IsBound here b = b
  Acts-IsBound (keeps {j} j' a w ls p) b = kept p (Acts-IsBound a b)
    where
      kept : KeepsPeer I j j' → IsBound I j → IsBound I j'
      kept p (inl none_runs) = inl (ls ∙ none_runs)
      kept (inl none_runs) (inr q) = inl (ls ∙ none_runs)
      kept (inr (id, same)) (inr q) = inr (same ∙ q)
  Acts-IsBound (extends w a e v) b = Acts-IsBound a b
  Acts-IsBound (subscribes r s a q h) b = inr q
  Acts-IsBound (updates pod meta r s a h) b = Acts-IsBound a b

  -- Whatever comes of the call, it acts so.
  abbrev pub Behaves : {A : Type 0} → Action (Conn S P C) A → Type 0
  Behaves m = (k : Conn S P C) → L.IsValid k.world → IsBound I k → Acts k (m k).1

  pub Behaves-bind :
      {A B : Type 0} (m : Action (Conn S P C) A) (f : A → Action (Conn S P C) B)
      → Behaves m
      → ((a : A) → Behaves (f a))
      → Behaves (m >>= f)
  Behaves-bind m f hm hf k v b =
      bind_cases (λ (x : Result _ × Conn S P C). Acts k x.1) m f k (λ e failed. hm k v b)
        λ a went.
          Acts-trans (hm k v b)
            (hf a (m k).1 (Acts-IsValid (hm k v b) v) (Acts-IsBound (hm k v b) b))

  pub Behaves-lift : {A : Type 0} (r : Result A) → Behaves (lift r)
  Behaves-lift r k v b = here

  pub Behaves-send : (o : Out S P) → Behaves (modify (send o))
  Behaves-send o k v b = keeps _ here refl refl (inr (refl, refl))
