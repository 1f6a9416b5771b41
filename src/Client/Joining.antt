-- ===== src/Client/Joining.antt =====
-- pkg/client/client.go, `Join`: what becomes of the publishing connection.
use ion_cluster.Base.{◌≡◌, String, true, false, Option, none, List, [], ◌∷◌, ◌++◌}
use ion_cluster.Coordinator.{Result, ok, err}
use ion_cluster.Rpc.{Outcome, done, panics}
use ion_cluster.Client.{
  PcApi, SignalApi, Client, join, Message, negotiate, trickle_publisher, trickle_subscriber,
}
use ion_cluster.Client.Candidates.{PcLaws}

-- The candidates that the server has sent for the publishing connection.
abbrev pub publisher_candidates : (P : PcApi) → List (Message P) → List (P.Candidate)
publisher_candidates P [] = []
publisher_candidates P (negotiate _ ∷ l) = publisher_candidates P l
publisher_candidates P (trickle_publisher x ∷ l) = x ∷ publisher_candidates P l
publisher_candidates P (trickle_subscriber _ ∷ l) = publisher_candidates P l

module _ {P : PcApi} (L : PcLaws P) {G : SignalApi P} where
  -- How a join from one client state ends, where the handlers have taken some messages meanwhile.
  abbrev pub JoinEnds :
      String → List (Message P) → Client P G → Outcome (Result (Unit {0}) × Client P G) → Type 0
  JoinEnds sid received c panics =
      (offer : P.Description) × ((P.create_offer c.publisher.pc).0 ≡ ok offer)
      × ((G.join sid offer c.signal).0 ≡ ok none)
  JoinEnds sid received c (done (err _, k)) =
      (k.hooked ≡ true)
      × (k.renegotiates ≡ c.renegotiates)
      × (L.added k.publisher.pc ≡ L.added c.publisher.pc)
      × (k.publisher.candidates ≡ c.publisher.candidates ++ publisher_candidates P received)
  JoinEnds sid received c (done (ok _, k)) =
      (k.hooked ≡ true)
      × (k.renegotiates ≡ true)
      × (P.has_remote_description k.publisher.pc ≡ true)
      × (L.added k.publisher.pc
          ≡ L.added c.publisher.pc ++ (c.publisher.candidates ++ publisher_candidates P received))

  -- A client state on the way: the hooks are set, the publishing connection waits for its remote
  -- description, and some candidates have come for it.
  abbrev Prepared : List (P.Candidate) → Client P G → Client P G → Type 0
  Prepared xs c k =
      (k.hooked ≡ true)
      × (k.renegotiates ≡ c.renegotiates)
      × (k.publisher.candidates ≡ c.publisher.candidates ++ xs)
      × (L.added k.publisher.pc ≡ L.added c.publisher.pc)
      × (P.has_remote_description k.publisher.pc ≡ false)

  -- Where the call of the join has come to, with its result.
  abbrev Asked : String → Client P G → Result (Option (P.Description)) × Client P G → Type 0
  Asked sid c (r, k) =
      Prepared [] c k
      × (r ≡ ok none
          → (offer : P.Description) × ((P.create_offer c.publisher.pc).0 ≡ ok offer)
            × ((G.join sid offer c.signal).0 ≡ ok none))
