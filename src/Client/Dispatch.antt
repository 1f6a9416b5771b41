-- ===== src/Client/Dispatch.antt =====
-- pkg/client/signal.go: which messages of the server reach the client's handlers.
use ion_cluster.Base.{◌≡◌, ◌⊎◌, ◌↔◌, true, none, some, arith, text_discrete}
use ion_cluster.Coordinator.{ok}
use ion_cluster.Rpc.{Trickle, done, panics}
use ion_cluster.Client.{PcApi}
use ion_cluster.Client.Signal.{
  JsonRpcApi, JsonRpcSignalClient, Incoming, negotiates, trickles, handle,
}

module _ {P : PcApi} {R : JsonRpcApi P} where
  trickle_dispatched :
      (req : Incoming P R) (c : JsonRpcSignalClient P R) (raw : R.Raw) (t : Trickle (P.Candidate))
      → req.params ≡ some raw
      → R.decode_trickle raw ≡ ok t
      → req.method ≡ "trickle"
      → c.on_trickle ≡ true
      → handle req c ≡ done (trickles t.target t.candidate)
  unfolding handle text_discrete
  trickle_dispatched req c raw t given decoded e set = rw e (rw given (rw decoded (rw set)))

  -- A message of the server makes the client panic exactly if it is an offer or a trickle without
  -- parameters; it calls the negotiation handler exactly with the description of an offer that
  -- decodes, if that handler is set, and the trickle handler exactly with the target and the candidate
  -- of a trickle that decodes, if that handler is set.
  pub handle-Called :
      (req : Incoming P R) (c : JsonRpcSignalClient P R)
      → ((handle req c ≡ panics)
          ↔ ((req.params ≡ none) × ((req.method ≡ "offer") ⊎ (req.method ≡ "trickle"))))
        × ((raw : R.Raw) (d : P.Description)
            → req.params ≡ some raw
            → R.decode_description raw ≡ ok d
            → (handle req c ≡ done (negotiates d))
              ↔ ((req.method ≡ "offer") × (c.on_negotiate ≡ true)))
        × ((raw : R.Raw) (t : Trickle (P.Candidate))
            → req.params ≡ some raw
            → R.decode_trickle raw ≡ ok t
            → (handle req c ≡ done (trickles t.target t.candidate))
              ↔ ((req.method ≡ "trickle") × (c.on_trickle ≡ true)))
  unfolding handle
  handle-Called req c = (
    (λ h. ground arith, λ h. ground arith),
    λ raw d given decoded. (λ h. ground arith, λ h. ground arith),
    λ raw t given decoded.
        (λ h. ground arith, λ h. trickle_dispatched req c raw t given decoded h.0 h.1),
  )
