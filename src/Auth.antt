-- ===== src/Auth.antt =====
-- pkg/server_auth.go: the token that a websocket request has to carry.
mod Tests
use ion_cluster.Base.{
  ◌≡◌, ◌≢◌, refl, String, Option, none, some, List, [], ◌∷◌, Map, lookup, is_empty, if◌then◌else◌,
  arith, Option-cases, inl, inr, ◌∙◌, sym,
}
use ion_cluster.Config.{AuthConfig}
use ion_cluster.Coordinator.{Error, no_token, no_sid, Result, ok, err}

-- The embedded `*jwt.StandardClaims` may be nil.
pub record AuthToken (Claims : Type 0) : Type 0 where
  pub sid : String
  pub standard_claims : Option Claims

-- The JWT library: the validity of the standard claims, and the parsing of a token text, which is
-- given a key and the token's own `Valid`.
pub record JwtApi : Type 1 where
  pub Claims : Type 0
  pub claims_valid : Claims → Option Error
  pub parse_with_claims :
      String → String → (AuthToken Claims → Option Error) → Result (AuthToken Claims)

-- `Signed text key token`: the text is that token under a signature made with the key.
pub record JwtLaws (T : JwtApi) : Type 1 where
  pub Signed : String → String → AuthToken (T.Claims) → Type 0
  -- `ParseWithClaims` verifies the signature and calls `Valid`.
  pub parse_signed :
      (text key : String) (valid : AuthToken (T.Claims) → Option Error) (t : AuthToken (T.Claims))
      → T.parse_with_claims text key valid ≡ ok t
      → Signed text key t
  pub parse_valid :
      (text key : String) (valid : AuthToken (T.Claims) → Option Error) (t : AuthToken (T.Claims))
      → T.parse_with_claims text key valid ≡ ok t
      → valid t ≡ none

-- `Valid`
unfoldable pub valid : (T : JwtApi) → AuthToken (T.Claims) → Option Error
valid T t =
    if is_empty t.sid
    then some no_sid
    else (elim t.standard_claims [ none ↦ none | some claims ↦ T.claims_valid claims ])

-- `keyFunc`: the key's type is not looked at.
abbrev pub key_func : AuthConfig → String
key_func a = a.key

-- `authGetAndValidateToken`, on the query of the request's URL.
unfoldable pub get_and_validate_token :
    (T : JwtApi) → AuthConfig → Map (List String) → Result (AuthToken (T.Claims))
get_and_validate_token T config query = elim (lookup "access_token" query) [
  | none ↦ err no_token
  | some [] ↦ err no_token
  | some (text ∷ _) ↦ T.parse_with_claims text (key_func config) (valid T)
]

valid-none :
    (T : JwtApi) (t : AuthToken (T.Claims))
    → valid T t ≡ none
    → (t.sid ≢ "")
      × ((claims : T.Claims) → t.standard_claims ≡ some claims → T.claims_valid claims ≡ none)
unfolding valid
valid-none T t h = (ground arith, λ claims e. ground arith)

-- A token that is accepted is the first one of the query, is signed with the configured key, and is
-- valid: it names a session, and its standard claims, if it has any, hold.
pub accepted-IsValid :
    (T : JwtApi) (L : JwtLaws T) (config : AuthConfig) (query : Map (List String))
    (t : AuthToken (T.Claims))
    → get_and_validate_token T config query ≡ ok t
    → (text : String) × (more : List String) × (lookup "access_token" query ≡ some (text ∷ more))
      × L.Signed text config.key t
      × (t.sid ≢ "")
      × ((claims : T.Claims) → t.standard_claims ≡ some claims → T.claims_valid claims ≡ none)
unfolding get_and_validate_token
accepted-IsValid T L config query t h = go (lookup "access_token" query) refl
  where
    go :
        (found : Option (List String))
        → lookup "access_token" query ≡ found
        → (text : String) × (more : List String) × (lookup "access_token" query
            ≡ some (text ∷ more))
          × L.Signed text config.key t
          × (t.sid ≢ "")
          × ((claims : T.Claims) → t.standard_claims ≡ some claims → T.claims_valid claims ≡ none)
    go none e = absurd (ground arith)
    go (some []) e = absurd (ground arith)
    go (some (text ∷ more)) e =
        let parsed : T.parse_with_claims text config.key (valid T) ≡ ok t = ground arith in
        let (has_sid, claims_hold) =
          valid-none T t (L.parse_valid text config.key (valid T) t parsed) in
        (text, more, e, L.parse_signed text config.key (valid T) t parsed, has_sid, claims_hold)
