-- ===== src/Server/Memory.antt =====
-- pkg/server.go: what the handler of a websocket request does to the sessions in memory.
use ion_cluster.Base.{◌≡◌, refl, sym, subst, inl, inr, String, Bool, Bool-cases, arith}
use ion_cluster.Config.{SignalConfig}
use ion_cluster.Metrics.{Gauges}
use ion_cluster.Session.{Sfu}
use ion_cluster.Auth.{JwtApi, get_and_validate_token}
use ion_cluster.Coordinator.{
  Result, ok, err, SessionMeta, World, Coordinator, CoordinatorLaws, Extends,
}
use ion_cluster.Server.{
  HttpRequest, Served, proxies, opens, forbidden, internal_error, unparsed, panics, serve_meta,
  serve_session, serve_websocket, token_allows, finish,
}

module _ {S : Sfu} {C : Type 0} (T : JwtApi) (c : Coordinator S C) (L : CoordinatorLaws S C c)
    (parses : String → Bool) (config : SignalConfig) where
  -- At most one session is made, and a valid world stays valid.
  abbrev pub Serves : World S C → World S C → Type 0
  Serves w w' = Extends w w' × (L.IsValid w → L.IsValid w')

  Serves-self : (w : World S C) → Serves w w
  Serves-self w = (record { chans = refl; grown = inl refl }, λ v. v)

  Serves-gauges :
      (w u : World S C) (g : Gauges)
      → Serves w u
      → g.sessions ≡ u.gauges.sessions
      → Serves w (record u { gauges = g })
  Serves-gauges w u g (e, f) same =
      (record { chans = e.chans; grown = e.grown }, λ v. L.gauges-IsValid u g same (f v))

  serve_meta-gauges :
      (r : HttpRequest) (meta : SessionMeta) (w : World S C)
      → let w' : World S C = (serve_meta parses r meta w).1 in
        (w' ≡ record w { gauges = w'.gauges }) × (w'.gauges.sessions ≡ w.gauges.sessions)
  unfolding serve_meta
  serve_meta-gauges r meta w = ground arith

  serve_session-Serves : (r : HttpRequest) (w : World S C) → Serves w (serve_session c parses r w).1
  unfolding serve_session
  serve_session-Serves r w =
      go (c.get_or_create_session r.id w)
        (L.get_or_create_session-Extends r.id w, L.get_or_create_session-IsValid r.id w)
    where
      go :
          (x : Result SessionMeta × World S C)
          → Serves w x.1
          → (let y : Served × World S C = elim x.0 [
            | err e ↦ (internal_error, x.1)
            | ok meta ↦ serve_meta parses r meta x.1
          ] in
              Serves w y.1)
      go (err e, u) h = h
      go (ok meta, u) h =
          let (same, gauge) = serve_meta-gauges r meta u in
          subst (Serves w) (sym same) (Serves-gauges w u _ h gauge)

  pub serve_websocket-Serves :
      (r : HttpRequest) (w : World S C) → Serves w (serve_websocket T c parses config r w).1
  unfolding serve_websocket get_and_validate_token
  serve_websocket-Serves r w = elim (Bool-cases config.auth.enabled) [
    | inr off ↦ rw off (serve_session-Serves r w)
    | inl on ↦
        elim (Bool-cases (token_allows T r.id (get_and_validate_token T config.auth r.query))) [
          | inl allowed ↦ rw (on, allowed) (serve_session-Serves r w)
          | inr refused ↦ rw (on, refused) (Serves-self w)
        ]
  ]

  pub finish-Serves : (s : Served) (w : World S C) → Serves w (finish s w)
  unfolding finish
  finish-Serves (proxies _) w = Serves-gauges w w _ (Serves-self w) refl
  finish-Serves opens w = Serves-gauges w w _ (Serves-self w) refl
  finish-Serves forbidden w = Serves-self w
  finish-Serves internal_error w = Serves-self w
  finish-Serves unparsed w = Serves-self w
  finish-Serves panics w = Serves-self w
