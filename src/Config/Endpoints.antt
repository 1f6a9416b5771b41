-- ===== src/Config/Endpoints.antt =====
-- pkg/config.go, `Endpoint`: which port the endpoint names.
use Prim.Native.String.{◌++◌}
use ion_cluster.Base.{
  ◌≡◌, ap, ◌∙◌, ◌⊎◌, inl, inr, String, ◌∷◌, none, some, split_at, split_at-first, split_at-none,
  Lacks,
}
use ion_cluster.Config.{RootConfig, endpoint_of_parts, endpoint_at, endpoint}

-- For an address `host:port`, host and port without a colon, the endpoint names the port. What
-- stands behind a second colon is dropped.
pub endpoint_port :
    {F : Type 0} (c : RootConfig F) (host port rest : String)
    → Lacks ":" host
    → Lacks ":" port
    → (c.signal.http_addr ≡ host ++ String.◌∷◌ ":" port)
      ⊎ (c.signal.http_addr ≡ host ++ String.◌∷◌ ":" (port ++ String.◌∷◌ ":" rest))
    → endpoint c ≡ some (endpoint_at c.signal port)
unfolding endpoint
endpoint_port c host port rest h p (inl e) = ap (endpoint_of_parts c.signal) (
    ap (split_at ":") e
    ∙ split_at-first ":" host port h
    ∙ ap (λ l. host ∷ l) (split_at-none ":" port p))
endpoint_port c host port rest h p (inr e) = ap (endpoint_of_parts c.signal) (
    ap (split_at ":") e
    ∙ split_at-first ":" host (port ++ String.◌∷◌ ":" rest) h
    ∙ ap (λ l. host ∷ l) (split_at-first ":" port rest p))

-- An address without a colon makes `Endpoint` panic.
endpoint_panics : {F : Type 0} (c : RootConfig F) → Lacks ":" c.signal.http_addr → endpoint c ≡ none
unfolding endpoint
endpoint_panics c h = ap (endpoint_of_parts c.signal) (split_at-none ":" c.signal.http_addr h)
