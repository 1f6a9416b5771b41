-- ===== src/Client/Signal.antt =====
-- pkg/client/signal.go: the signal of a client, JSON-RPC over a websocket.
use ion_cluster.Base.{
  String, Bool, true, false, Option, none, some, ite, text_discrete, if◌then◌else◌,
}
use ion_cluster.Base.Int.{ℤ}
use ion_cluster.Coordinator.{Error, from_library, Result, ok, err, Action}
use ion_cluster.Rpc.{Join, Negotiation, Trickle, Outcome, done, panics}
use ion_cluster.Client.{PcApi, SignalApi}

-- What a client sends: calls, which wait for the response, and notifications.
pub data Message (P : PcApi) : Type 0 where
  join_request : Join (P.Description) → Message P
  offer_request : Negotiation (P.Description) → Message P
  ping_request : Message P
  answer_notice : Negotiation (P.Description) → Message P
  trickle_notice : Trickle (P.Candidate) → Message P

-- The websocket dialer and `*jsonrpc2.Conn`, with the decoding of parameters and responses. A response
-- whose result is null is decoded to a nil description.
pub record JsonRpcApi (P : PcApi) : Type 1 where
  pub Jc : Type 0
  pub Raw : Type 0
  pub dial : String → Result Jc
  pub close : Jc → Result (Unit {0}) × Jc
  pub call_description : Message P → Jc → Result (Option (P.Description)) × Jc
  pub call : Message P → Jc → Result (Unit {0}) × Jc
  pub notify : Message P → Jc → Result (Unit {0}) × Jc
  pub decode_description : Raw → Result (P.Description)
  pub decode_trickle : Raw → Result (Trickle (P.Candidate))

-- `onNegotiate` and `onTrickle` are set or not: the only handlers are those of the client.
pub record JsonRpcSignalClient (P : PcApi) (R : JsonRpcApi P) : Type 0 where
  pub jc : Option (R.Jc)
  pub on_negotiate : Bool
  pub on_trickle : Bool

-- A message from the server.
pub record Incoming (P : PcApi) (R : JsonRpcApi P) : Type 0 where
  pub method : String
  pub params : Option (R.Raw)

-- The handler that a message calls.
pub data Called (P : PcApi) : Type 0 where
  nothing : Called P
  negotiates : P.Description → Called P
  trickles : ℤ → P.Candidate → Called P

abbrev pub err_not_connected : Error
err_not_connected = from_library "error no connection established"

-- `*req.Params`
abbrev pub with_params : {A B : Type 0} → Option A → (A → B) → Outcome B
with_params none f = panics
with_params (some raw) f = done (f raw)

module _ {P : PcApi} {R : JsonRpcApi P} where
  -- A method of the connection, which is an error when there is none.
  abbrev pub connected : {A : Type 0} → Action (R.Jc) A → Action (JsonRpcSignalClient P R) A
  connected m c = elim c.jc [
    | none ↦ (err err_not_connected, c)
    | some jc ↦ let (r, jc') = m jc in (r, record c { jc = some jc' })
  ]

  unfoldable pub new_jsonrpc_signal_client : JsonRpcSignalClient P R
  new_jsonrpc_signal_client = record { jc = none; on_negotiate = false; on_trickle = false }

  unfoldable pub open_connection : String → Action (JsonRpcSignalClient P R) (Unit {0})
  open_connection url c = elim (R.dial url) [
    | err e ↦ (err e, c)
    | ok jc ↦ (ok tt, record c { jc = some jc })
  ]

  -- Unlike the other methods, it does not test whether there is a connection.
  unfoldable pub close :
      JsonRpcSignalClient P R → Outcome (Result (Unit {0}) × JsonRpcSignalClient P R)
  close c = elim c.jc [
    | none ↦ panics
    | some jc ↦ let (r, jc') = R.close jc in done (r, record c { jc = some jc' })
  ]

  unfoldable pub join :
      String → P.Description → Action (JsonRpcSignalClient P R) (Option (P.Description))
  join sid d =
      connected (R.call_description (join_request (record { sid = sid; uid = ""; offer = d })))

  unfoldable pub offer : P.Description → Action (JsonRpcSignalClient P R) (Option (P.Description))
  offer d = connected (R.call_description (offer_request (record { desc = d })))

  unfoldable pub answer : P.Description → Action (JsonRpcSignalClient P R) (Unit {0})
  answer d = connected (R.notify (answer_notice (record { desc = d })))

  unfoldable pub trickle : ℤ → P.Candidate → Action (JsonRpcSignalClient P R) (Unit {0})
  trickle target x =
      connected (R.notify (trickle_notice (record { target = target; candidate = x })))

  unfoldable pub ping : Action (JsonRpcSignalClient P R) (Unit {0})
  ping = connected (R.call ping_request)

  unfoldable pub set_on_negotiate : JsonRpcSignalClient P R → JsonRpcSignalClient P R
  set_on_negotiate c = record c { on_negotiate = true }

  unfoldable pub set_on_trickle : JsonRpcSignalClient P R → JsonRpcSignalClient P R
  set_on_trickle c = record c { on_trickle = true }

  -- The handler of a message from the server: a method of no other name, parameters that cannot be
  -- decoded and a handler that is not set are ignored.
  unfoldable pub handle : Incoming P R → JsonRpcSignalClient P R → Outcome (Called P)
  handle req c =
      ite (text_discrete req.method "offer")
        (with_params req.params (λ raw. elim (R.decode_description raw) [
          | err _ ↦ nothing
          | ok d ↦ if c.on_negotiate then negotiates d else nothing
        ]))
        (ite (text_discrete req.method "trickle")
          (with_params req.params (λ raw. elim (R.decode_trickle raw) [
            | err _ ↦ nothing
            | ok t ↦ if c.on_trickle then trickles t.target t.candidate else nothing
          ]))
          (done nothing))

-- The signal client is what the client of a node takes.
abbrev pub jsonrpc_signal : (P : PcApi) → JsonRpcApi P → SignalApi P
jsonrpc_signal P R = record {
  State = JsonRpcSignalClient P R;
  join = join;
  offer = offer;
  answer = answer;
  trickle = trickle;
}
