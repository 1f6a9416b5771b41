-- ===== src/Rpc/Joining.antt =====
-- pkg/server_jsonrpc.go, `Handle`, case "join": what a join leaves behind, on every way out of it.
use ion_cluster.Base.{ℕ, ◌≡◌, ◌⊎◌, String, true, false, some, [], ◌∷◌, ◌++◌, Option, none}
use ion_cluster.Session.{Sfu}
use ion_cluster.Coordinator.{SessionMeta, Result, ok, err, World, Coordinator, CoordinatorLaws}
use ion_cluster.Rpc.{PeerApi, Join, Out, Conn}
use ion_cluster.Rpc.Subscribing.{IsSubscribed}

module _ {S : Sfu} {P : PeerApi S} {C : Type 0} where
  module _ (c : Coordinator S C) (L : CoordinatorLaws S C c) where
    -- A join that ends without a subscription has left these alone.
    abbrev IsUnsubscribed : Conn S P C → Conn S P C → Type 0
    IsUnsubscribed k k' =
        (k'.sid ≡ k.sid) × (k'.listeners ≡ k.listeners) × (k'.callbacks ≡ k.callbacks)

    -- What the peer's `Join` finds: the session, if it asks for it, and the memory after that.
    abbrev pub Finds :
        String → String → Conn S P C → Option (ℕ × S.TransportConfig) → World S C → Type 0
    Finds sid uid k found w' =
        ((P.asks_provider sid uid k.peer ≡ true)
          × (found ≡ some (c.get_session sid k.world).0)
          × (w' ≡ (c.get_session sid k.world).1))
        ⊎ ((P.asks_provider sid uid k.peer ≡ false) × (found ≡ none) × (w' ≡ k.world))

    -- The peer has joined the session of the request and has answered its offer, and the connection is
    -- subscribed to that session, as it is found after the peer has joined.
    abbrev pub IsJoined :
        Join (P.Description) → P.Description → Conn S P C → World S C → Conn S P C → Type 0
    IsJoined join answer k w k' =
        (found : Option (ℕ × S.TransportConfig)) × (w' : World S C) × Finds join.sid join.uid
          (record k { world = w }) found w'
        × (let joined = P.join join.sid join.uid found k.peer in
            (joined.0 ≡ ok tt) × (P.answer join.offer joined.1 ≡ (ok answer, k'.peer)))
        × ((sub : IsSubscribed join.sid k k') × (sub.session ≡ (c.get_session join.sid w').0.0))

    -- How a join ends: with an error, with the redirect to the owner, or with an answer.
    abbrev pub JoinEnds : String → P.Raw → Conn S P C → Result (Unit {0}) × Conn S P C → Type 0
    JoinEnds id raw k (err _, k') = IsUnsubscribed k k' × (k'.out ≡ k.out) × L.IsValid k'.world
    JoinEnds id raw k (ok _, k') =
        L.IsValid k'.world
        × ((join : Join (P.Description)) × (P.decode_join raw ≡ ok join)
            × ((meta : SessionMeta) × ((c.get_or_create_session join.sid k.world).0 ≡ ok meta)
                × (((meta.redirect ≡ true)
                      × (k'.out ≡ k.out ++ Out.reply_redirect id 302 meta ∷ [])
                      × IsUnsubscribed k k'
                      × (k'.peer ≡ k.peer))
                    ⊎ ((meta.redirect ≡ false)
                        × ((answer : P.Description) × (k'.out
                              ≡ k.out ++ Out.reply_answer id answer ∷ [])
                            × (k'.callbacks ≡ true)
                            × IsJoined join answer k (c.get_or_create_session join.sid k.world).1
                                k')))))
