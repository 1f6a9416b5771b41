-- ===== src/Server/Access.antt =====
-- pkg/server.go: who may open a session, and what a request that may not leaves behind.
use ion_cluster.Base.{
  ◌≡◌, ◌≢◌, ◌∙◌, ◌⊎◌, inl, inr, String, Bool, true, List, lookup, some, ◌∷◌, arith, text_discrete,
}
use ion_cluster.Config.{SignalConfig}
use ion_cluster.Session.{Sfu}
use ion_cluster.Auth.{JwtApi, JwtLaws, AuthToken, get_and_validate_token, accepted-IsValid}
use ion_cluster.Coordinator.{ok, Result-cases, World, Coordinator}
use ion_cluster.Server.{HttpRequest, forbidden, serve_session, serve_websocket}

module _ {S : Sfu} {C : Type 0} (T : JwtApi) (L : JwtLaws T) (c : Coordinator S C)
    (parses : String → Bool) (config : SignalConfig) where
  -- With authentication switched on, a request is either refused, and then it changes nothing on the
  -- node and no token that is accepted from its query names the route's session; or its query carries, first, a token that is signed with the configured key, is valid and
  -- names the session of the route, which is not the empty id, and then it is served.
  pub serve_websocket-authorized :
      (r : HttpRequest) (w : World S C)
      → config.auth.enabled ≡ true
      → ((serve_websocket T c parses config r w ≡ (forbidden, w))
          × ((t : AuthToken (T.Claims))
              → get_and_validate_token T config.auth r.query ≡ ok t
              → t.sid ≢ r.id))
        ⊎ ((t : AuthToken (T.Claims)) × (text : String) × (more : List String) × (lookup
                "access_token" r.query
              ≡ some (text ∷ more))
            × L.Signed text config.auth.key t
            × (t.sid ≡ r.id)
            × (r.id ≢ "")
            × (serve_websocket T c parses config r w ≡ serve_session c parses r w))
  unfolding serve_websocket
  serve_websocket-authorized r w on =
      elim (Result-cases (get_and_validate_token T config.auth r.query)) [
        | inl (e, refused) ↦ inl (ground arith, λ t accepted. absurd (ground arith))
        | inr (t, accepted) ↦ elim (text_discrete t.sid r.id) [
          | no other ↦ inl (ground arith, λ u accepted'. ground arith)
          | yes same ↦
              let (text, more, given, signed, named, _) =
                accepted-IsValid T L config.auth r.query t accepted in
              inr (t, text, more, given, signed, same, λ e. named (same ∙ e), ground arith)
        ]
      ]
