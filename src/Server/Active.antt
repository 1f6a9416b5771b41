-- ===== src/Server/Active.antt =====
-- pkg/server.go and pkg/metrics.go: the gauges count the connections that are open, so the count
-- that the shutdown waits for is theirs.
use ion_cluster.Base.{
  ◌≡◌, refl, ◌∙◌, ap, sym, String, Bool, List, [], ◌∷◌, ◌++◌, length, arith, Bool-cases, inl, inr,
}
use ion_cluster.Base.Int.{pos, dec, ◌+ℤ◌}
use ion_cluster.Config.{SignalConfig}
use ion_cluster.Metrics.{new_gauges, active_clients_count}
use ion_cluster.Session.{Sfu}
use ion_cluster.Auth.{JwtApi, get_and_validate_token}
use ion_cluster.Coordinator.{Result, ok, err, SessionMeta, World, Coordinator, CoordinatorLaws}
use ion_cluster.Server.{
  HttpRequest, Served, forbidden, internal_error, unparsed, proxies, panics, opens, serve_meta,
  serve_session, serve_websocket, token_allows, finish,
}
use ion_cluster.Server.Counting.{
  count_opens, count_proxied, kept_open, Counts, count_opens-append, count_proxied-append,
  append_opens-opens, append_opens-proxied, append_proxies-opens, append_proxies-proxied, AllOpen,
  remove-AllOpen, keep-AllOpen,
}

module _ {S : Sfu} {C : Type 0} (T : JwtApi) (c : Coordinator S C) (L : CoordinatorLaws S C c)
    (parses : String → Bool) (config : SignalConfig) where
  serve_meta-Counts :
      (r : HttpRequest) (meta : SessionMeta) (w : World S C) (l : List Served)
      → Counts w.gauges l
      → let (s, w') = serve_meta parses r meta w in Counts w'.gauges (kept_open s ++ l)
  unfolding serve_meta
  serve_meta-Counts r meta w l h = ground arith

  serve_session-Counts :
      (r : HttpRequest) (w : World S C) (l : List Served)
      → Counts w.gauges l
      → let (s, w') = serve_session c parses r w in Counts w'.gauges (kept_open s ++ l)
  unfolding serve_session
  serve_session-Counts r w l (clients, proxied) =
      let same = L.get_or_create_session-clients r.id w in
      go (c.get_or_create_session r.id w) (same.0 ∙ clients, same.1 ∙ proxied)
    where
      go :
          (x : Result SessionMeta × World S C)
          → Counts x.1.gauges l
          → (let y : Served × World S C = elim x.0 [
            | err e ↦ (internal_error, x.1)
            | ok meta ↦ serve_meta parses r meta x.1
          ] in
              Counts y.1.gauges (kept_open y.0 ++ l))
      go (err e, w') h = h
      go (ok meta, w') h = serve_meta-Counts r meta w' l h

  serve_websocket-Counts :
      (r : HttpRequest) (w : World S C) (l : List Served)
      → Counts w.gauges l
      → let (s, w') = serve_websocket T c parses config r w in Counts w'.gauges (kept_open s ++ l)
  unfolding serve_websocket
  serve_websocket-Counts r w l h =
      let served = serve_session-Counts r w l h in
      elim (Bool-cases config.auth.enabled) [
        | inr off ↦ ground (arith)
        | inl on ↦
            elim (Bool-cases (token_allows T r.id (get_and_validate_token T config.auth r.query))) [
              | inl allowed ↦ ground (arith)
              | inr refused ↦ ground (arith)
            ]
      ]

  finish-Counts :
      (s : Served) (w : World S C) (l m : List Served)
      → Counts w.gauges (l ++ s ∷ m)
      → Counts (finish s w).gauges (l ++ m)
  unfolding finish
  finish-Counts (proxies url) w l m (clients, proxied) = (
    clients ∙ ap pos (append_proxies-opens url l m),
    ap dec (proxied ∙ ap pos (append_proxies-proxied url l m)),
  )
  finish-Counts opens w l m (clients, proxied) = (
    ap dec (clients ∙ ap pos (append_opens-opens l m)),
    proxied ∙ ap pos (append_opens-proxied l m),
  )
  finish-Counts forbidden w l m (clients, proxied) = (
    clients ∙ ap pos (count_opens-append l (forbidden ∷ m) ∙ sym (count_opens-append l m)),
    proxied ∙ ap pos (count_proxied-append l (forbidden ∷ m) ∙ sym (count_proxied-append l m)),
  )
  finish-Counts internal_error w l m (clients, proxied) = (
    clients ∙ ap pos (count_opens-append l (internal_error ∷ m) ∙ sym (count_opens-append l m)),
    proxied ∙ ap pos (count_proxied-append l (internal_error ∷ m) ∙ sym (count_proxied-append l m)),
  )
  finish-Counts unparsed w l m (clients, proxied) = (
    clients ∙ ap pos (count_opens-append l (unparsed ∷ m) ∙ sym (count_opens-append l m)),
    proxied ∙ ap pos (count_proxied-append l (unparsed ∷ m) ∙ sym (count_proxied-append l m)),
  )
  finish-Counts panics w l m (clients, proxied) = (
    clients ∙ ap pos (count_opens-append l (panics ∷ m) ∙ sym (count_opens-append l m)),
    proxied ∙ ap pos (count_proxied-append l (panics ∷ m) ∙ sym (count_proxied-append l m)),
  )

  -- The node's life: it serves a request, a connection ends, or something else runs, which leaves
  -- the two gauges alone. The list holds the connections that are open.
  pub data Life : World S C → List Served → Type 0 where
    starts : (w : World S C) → w.gauges ≡ new_gauges → Life w []
    serves :
        (r : HttpRequest) (w : World S C) (l : List Served)
        → Life w l
        → Life
            (serve_websocket T c parses config r w).1
            (kept_open (serve_websocket T c parses config r w).0 ++ l)
    ends :
        (s : Served) (w : World S C) (l m : List Served)
        → Life w (l ++ s ∷ m)
        → Life (finish s w) (l ++ m)
    others :
        (w w' : World S C) (l : List Served)
        → Life w l
        → w'.gauges.clients ≡ w.gauges.clients
        → w'.gauges.proxy_clients ≡ w.gauges.proxy_clients
        → Life w' l

  Life-Counts : (w : World S C) (l : List Served) → Life w l → Counts w.gauges l
  unfolding new_gauges
  Life-Counts w l (starts _ new) = (ap (λ g. g.clients) new, ap (λ g. g.proxy_clients) new)
  Life-Counts w l (serves r v k life) = serve_websocket-Counts r v k (Life-Counts v k life)
  Life-Counts w l (ends s v k m life) = finish-Counts s v k m (Life-Counts v (k ++ s ∷ m) life)
  Life-Counts w l (others v _ _ life clients proxied) =
      let (c', p') = Life-Counts v l life in (clients ∙ c', proxied ∙ p')

  Life-AllOpen : (w : World S C) (l : List Served) → Life w l → AllOpen l
  Life-AllOpen w l (starts _ _) = refl
  Life-AllOpen w l (serves r v k life) =
      keep-AllOpen (serve_websocket T c parses config r v).0 k (Life-AllOpen v k life)
  Life-AllOpen w l (ends s v k m life) = remove-AllOpen s k m (Life-AllOpen v (k ++ s ∷ m) life)
  Life-AllOpen w l (others v _ _ life _ _) = Life-AllOpen v l life

  -- In every life of a node, over a coordinator that leaves the two gauges alone, the gauges count
  -- the websockets and the proxied requests that are open, and the count that the shutdown waits for
  -- is the number of all of them.
  pub active_clients-open :
      (w : World S C) (l : List Served)
      → Life w l
      → (w.gauges.clients ≡ pos (count_opens l))
        × (w.gauges.proxy_clients ≡ pos (count_proxied l))
        × (active_clients_count w.gauges ≡ pos (length l))
  unfolding active_clients_count
  active_clients-open w l life =
      let (clients, proxied) = Life-Counts w l life in
      (
        clients,
        proxied,
        ap (λ a. a +ℤ w.gauges.proxy_clients) clients
            ∙ ap (λ b. pos (count_opens l) +ℤ b) proxied
            ∙ ap pos (Life-AllOpen w l life),
      )
