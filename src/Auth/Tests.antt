-- ===== src/Auth/Tests.antt =====
-- pkg/server_auth.go on a query with one token.
use ion_cluster.Base.{◌≡◌, ◌≢◌, refl, String, none, some, List, [], ◌∷◌, Map, lookup, text_discrete}
use ion_cluster.Coordinator.{ok}
use ion_cluster.Auth.{AuthToken, valid, get_and_validate_token, accepted-IsValid}
use ion_cluster.Samples.{jwt, jwt_laws, auth}

abbrev query : Map (List String)
query = ("access_token", "room" ∷ []) ∷ []

abbrev token : AuthToken (jwt.Claims)
token = record { sid = "room"; standard_claims = none }

accepted : get_and_validate_token jwt auth query ≡ ok token
unfolding get_and_validate_token valid text_discrete
accepted = refl

accepted-IsValid_example :
    (text : String) × (more : List String) × (lookup "access_token" query ≡ some (text ∷ more))
    × jwt_laws.Signed text "k" token
    × (token.sid ≢ "")
    × ((claims : jwt.Claims) → token.standard_claims ≡ some claims → jwt.claims_valid claims ≡ none)
accepted-IsValid_example = accepted-IsValid jwt jwt_laws auth query token accepted
