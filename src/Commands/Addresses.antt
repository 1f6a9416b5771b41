-- ===== src/Commands/Addresses.antt =====
-- pkg/config.go with pkg/server.go: the endpoint that a node gives out and how its server listens.
use Prim.Native.String.{◌++◌}
use ion_cluster.Base.{◌≡◌, ◌≢◌, ap, ◌∙◌, ◌⊎◌, inl, inr, String, some, Lacks, text_discrete, arith}
use ion_cluster.Config.{RootConfig, SignalConfig, endpoint_at, endpoint}
use ion_cluster.Config.Endpoints.{endpoint_port}
use ion_cluster.Commands.Serving.{listens_tls, listens, listening}

abbrev address_of : String → SignalConfig → String → String
address_of scheme c port = scheme ++ (c.fqdn ++ (":" ++ (port ++ "/ws")))

-- With both TLS files named.
abbrev Secure : SignalConfig → String → Type 0
Secure c port =
    (c.key ≢ "")
    × (c.cert ≢ "")
    × (endpoint_at c port ≡ address_of "wss://" c port)
    × (listening c ≡ listens_tls c.http_addr c.cert c.key)

abbrev Plain : SignalConfig → String → Type 0
Plain c port =
    ((c.key ≡ "") ⊎ (c.cert ≡ ""))
    × (endpoint_at c port ≡ address_of "ws://" c port)
    × (listening c ≡ listens c.http_addr)

by_files : (c : SignalConfig) (port : String) → Secure c port ⊎ Plain c port
by_files c port = elim (text_discrete c.key "") [
  | yes no_key ↦ inr (inl no_key, ground arith, ground arith)
  | no key ↦ elim (text_discrete c.cert "") [
    | yes no_cert ↦ inr (inr no_cert, ground arith, ground arith)
    | no cert ↦ inl (key, cert, ground arith, ground arith)
  ]
]

-- For an address `host:port`, host and port without a colon, the endpoint that a node gives out names the
-- port of the address that its server listens on; and either the key and the certificate are both named,
-- the endpoint is for TLS and the server listens with these files, or one of them is not, the endpoint is
-- for plain websockets and the server listens without TLS.
pub endpoint-listening :
    {F : Type 0} (c : RootConfig F) (host port : String)
    → Lacks ":" host
    → Lacks ":" port
    → c.signal.http_addr ≡ host ++ String.◌∷◌ ":" port
    → ((c.signal.key ≢ "")
        × (c.signal.cert ≢ "")
        × (endpoint c ≡ some (address_of "wss://" c.signal port))
        × (listening c.signal ≡ listens_tls c.signal.http_addr c.signal.cert c.signal.key))
      ⊎ (((c.signal.key ≡ "") ⊎ (c.signal.cert ≡ ""))
          × (endpoint c ≡ some (address_of "ws://" c.signal port))
          × (listening c.signal ≡ listens c.signal.http_addr))
endpoint-listening c host port h p addr =
    let names = endpoint_port c host port "" h p (inl addr) in
    elim (by_files c.signal port) [
      | inl (key, cert, at, tls) ↦ inl (key, cert, names ∙ ap some at, tls)
      | inr (file, at, plain) ↦ inr (file, names ∙ ap some at, plain)
    ]
