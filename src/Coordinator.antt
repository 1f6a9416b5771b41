-- ===== src/Coordinator.antt =====
-- pkg/coordinator.go: the interface of a coordinator, over the memory that a node's goroutines share.
-- A `*Session` is an index into the list of all sessions that the node has made.
pub mod Local
pub mod Tracking
pub mod Wire
pub mod Etcd
use ion_cluster.Base.{
  ℕ, ◌≡◌, refl, ◌⊎◌, inl, inr, String, Bool, Option, none, some, List, get_elem?, set, [], ◌∷◌,
  ◌++◌,
}
use ion_cluster.Metrics.{Gauges}
use ion_cluster.Session.{Sfu, Chan, Session}

pub record SessionMeta : Type 0 where
  pub session_id : String
  pub node_id : String
  pub node_endpoint : String
  pub redirect : Bool

-- The errors of the server: those of third-party calls with their text, and its own.
pub data Error : Type 0 where
  from_library : String → Error
  bad_json no_token no_sid not_in_session : Error

pub data Result {ℓ} (A : Type ℓ) : Type ℓ where
  ok : A → Result A
  err : Error → Result A

pub Result-cases {ℓ} :
    {A : Type ℓ} (r : Result A) → ((e : Error) × (r ≡ err e)) ⊎ ((a : A) × (r ≡ ok a))
Result-cases (ok a) = inr (a, refl)
Result-cases (err e) = inl (e, refl)

-- A call that may fail: what it changed before it failed stays changed.
abbrev pub Action : Type 0 → Type 0 → Type 0
Action W A = W → Result A × W

infixl 5 ◌>>=◌ ◌>>◌
abbrev pub ◌>>=◌ : {W A B : Type 0} → Action W A → (A → Action W B) → Action W B
◌>>=◌ m f w = let (r, w') = m w in elim r [ ok a ↦ f a w' | err e ↦ (err e, w') ]

abbrev pub ◌>>◌ : {W B : Type 0} → Action W (Unit {0}) → Action W B → Action W B
m >> k = m >>= λ _. k

abbrev pub pure : {W A : Type 0} → A → Action W A
pure a w = (ok a, w)

abbrev pub gets : {W A : Type 0} → (W → A) → Action W A
gets f w = (ok (f w), w)

abbrev pub modify : {W : Type 0} → (W → W) → Action W (Unit {0})
modify f w = (ok tt, f w)

-- `defer f()` around the rest of a function.
abbrev pub deferring : {W A : Type 0} → (W → W) → Action W A → Action W A
deferring f m w = let (r, w') = m w in (r, f w')

abbrev pub or_error : {W A : Type 0} → Error → Option A → Action W A
or_error e none w = (err e, w)
or_error e (some a) w = (ok a, w)

-- To prove something of a bind, by the way its first call ends.
pub bind_cases {ℓ} :
    {W A B : Type 0} (Q : Result B × W → Type ℓ) (m : Action W A) (f : A → Action W B) (w : W)
    → ((e : Error) → (m w).0 ≡ err e → Q (err e, (m w).1))
    → ((a : A) → (m w).0 ≡ ok a → Q (f a (m w).1))
    → Q ((m >>= f) w)
bind_cases {W} {A} {B} Q m f w failed went = go (m w).0 refl
  where
    go :
        (r : Result A)
        → (m w).0 ≡ r
        → Q (
            let w' : W = (m w).1 in
            let x : Result B × W = elim (m w).0 [ ok a ↦ f a w' | err e ↦ (err e, w') ] in x)
    go (ok a) e = rw e (went a e)
    go (err x) e = rw e (failed x e)

-- `C` is the state of the coordinator.
pub record World (S : Sfu) (C : Type 0) : Type 0 where
  pub coordinator : C
  pub sessions : List (Session S)
  pub chans : List (Chan S)
  pub gauges : Gauges

-- The interface `coordinator`: `getOrCreateSession`, and `GetSession` of the SFU's SessionProvider.
pub record Coordinator (S : Sfu) (C : Type 0) : Type 0 where
  pub get_or_create_session : String → World S C → Result SessionMeta × World S C
  pub get_session : String → World S C → (ℕ × S.TransportConfig) × World S C

-- The id that the close handler of a session was registered with, until the handler has run.
abbrev pub handler_in : {S : Sfu} → List (Session S) → ℕ → Option String
handler_in ss r = elim (get_elem? ss r) [ none ↦ none | some s ↦ s.on_close ]

-- The world after a goroutine has worked on the session at an index and on the channels.
abbrev pub with_session :
    {S : Sfu} {C : Type 0} → ℕ → Session S → List (Chan S) → World S C → World S C
with_session r s chans w = record w { sessions = set w.sessions r s; chans = chans }

-- What an operation of a coordinator may do to the sessions in memory: make one, which nobody listens
-- to yet. The channels are not the coordinator's.
pub record Extends {S : Sfu} {C : Type 0} (w w' : World S C) : Type 0 where
  pub chans : w'.chans ≡ w.chans
  pub grown :
      (w'.sessions ≡ w.sessions)
      ⊎ ((s : Session S) × (w'.sessions ≡ w.sessions ++ s ∷ []) × (s.broadcast_listeners ≡ []))

-- What the end of a session does to them: its close handler is gone.
pub record Spends {S : Sfu} {C : Type 0} (w w' : World S C) : Type 0 where
  pub chans : w'.chans ≡ w.chans
  pub ended : ℕ
  pub object : Session S
  pub there : get_elem? w.sessions ended ≡ some object
  pub spent : w'.sessions ≡ set w.sessions ended (record object { on_close = none })

-- What clients of a coordinator rely on: a validity of worlds that its operations and the work on
-- sessions keep, and a lookup that finds a session.
pub record CoordinatorLaws (S : Sfu) (C : Type 0) (c : Coordinator S C) : Type 1 where
  pub IsValid : World S C → Type 0
  pub get_or_create_session-IsValid :
      (sid : String) (w : World S C) → IsValid w → IsValid (c.get_or_create_session sid w).1
  pub get_session-IsValid :
      (sid : String) (w : World S C) → IsValid w → IsValid (c.get_session sid w).1
  pub with_session-IsValid :
      (r : ℕ) (s s' : Session S) (chans : List (Chan S)) (w : World S C)
      → IsValid w
      → get_elem? w.sessions r ≡ some s
      → s'.on_close ≡ s.on_close
      → IsValid (with_session r s' chans w)
  -- The session is in the node's memory.
  pub get_session-finds :
      (sid : String) (w : World S C)
      → IsValid w
      → let ((r, _), w') = c.get_session sid w in
        (s : Session S) × (get_elem? w'.sessions r ≡ some s)
  -- The gauges of the connections are not the coordinator's.
  pub get_or_create_session-clients :
      (sid : String) (w : World S C)
      → ((c.get_or_create_session sid w).1.gauges.clients ≡ w.gauges.clients)
        × ((c.get_or_create_session sid w).1.gauges.proxy_clients ≡ w.gauges.proxy_clients)
  -- The channels and the gauges of the connections are free.
  pub chans-IsValid :
      (w : World S C) (chans : List (Chan S)) → IsValid w → IsValid (record w { chans = chans })
  pub gauges-IsValid :
      (w : World S C) (g : Gauges)
      → g.sessions ≡ w.gauges.sessions
      → IsValid w
      → IsValid (record w { gauges = g })
  pub get_or_create_session-Extends :
      (sid : String) (w : World S C) → Extends w (c.get_or_create_session sid w).1
  pub get_session-Extends : (sid : String) (w : World S C) → Extends w (c.get_session sid w).1
  -- A run of a session's close handler.
  pub Ends : World S C → World S C → Type 0
  pub Ends-IsValid : (w w' : World S C) → Ends w w' → IsValid w → IsValid w'
  pub Ends-Spends : (w w' : World S C) → Ends w w' → Spends w w'
  -- A second lookup finds the same session and makes none.
  pub get_session-again :
      (sid : String) (w : World S C)
      → c.get_session sid (c.get_session sid w).1 ≡ c.get_session sid w
