-- ===== src/Node/Peers.antt =====
-- Which peers have a goroutine that reads the broadcasts of a session.
use ion_cluster.Base.{
  ℕ, zero, suc, ◌≡◌, ◌≢◌, ◌⊎◌, inl, inr, String, some, List, [], ◌∷◌, ◌++◌, get_elem?, set, arith,
  subst,
}
use mathlib.Core.Option.{some-injective}
use ion_cluster.Session.{Sfu}
use ion_cluster.Rpc.{PeerApi, Listener, Conn}
use ion_cluster.Node.{remove_at}

-- One of the goroutines reads from the session at an index.
abbrev pub Reads : ℕ → List Listener → Type 0
Reads r [] = ⊥
Reads r (l ∷ ls) = (l.session ≡ r) ⊎ Reads r ls

pub Reads-append_left : (r : ℕ) (ls ms : List Listener) → Reads r ls → Reads r (ls ++ ms)
Reads-append_left r [] ms h = absurd h
Reads-append_left r (l ∷ ls) ms (inl e) = inl e
Reads-append_left r (l ∷ ls) ms (inr h) = inr (Reads-append_left r ls ms h)

pub Reads-append_right : (r : ℕ) (ls ms : List Listener) → Reads r ms → Reads r (ls ++ ms)
Reads-append_right r [] ms h = h
Reads-append_right r (l ∷ ls) ms h = inr (Reads-append_right r ls ms h)

-- The end of one goroutine leaves those of other sessions.
pub Reads-remove_at :
    (r j : ℕ) (l : Listener) (ls : List Listener)
    → get_elem? ls j ≡ some l
    → l.session ≢ r
    → Reads r ls
    → Reads r (remove_at j ls)
Reads-remove_at r j l [] e ne h = absurd h
Reads-remove_at r zero l (m ∷ ls) e ne (inl here) = absurd (ground arith)
Reads-remove_at r zero l (m ∷ ls) e ne (inr h) = h
Reads-remove_at r (suc j) l (m ∷ ls) e ne (inl here) = inl here
Reads-remove_at r (suc j) l (m ∷ ls) e ne (inr h) = inr (Reads-remove_at r j l ls e ne h)

module _ {S : Sfu} {P : PeerApi S} {C : Type 0} where
  abbrev pub Has : String → ℕ → Conn S P C → Type 0
  Has key r k = (P.id k.peer ≡ key) × Reads r k.listeners

  -- A connection with the peer's id has such a goroutine.
  abbrev pub Alive : String → ℕ → List (Conn S P C) → Type 0
  Alive key r [] = ⊥
  Alive key r (k ∷ ks) = Has key r k ⊎ Alive key r ks

  pub Alive-set :
      (key : String) (r i : ℕ) (k k' : Conn S P C) (ks : List (Conn S P C))
      → get_elem? ks i ≡ some k
      → (Has key r k → Has key r k')
      → Alive key r ks
      → Alive key r (set ks i k')
  Alive-set key r i k k' [] e f h = absurd h
  Alive-set key r zero k k' (x ∷ ks) e f (inl here) =
      inl (f (subst (Has key r) (some-injective x k e) here))
  Alive-set key r zero k k' (x ∷ ks) e f (inr h) = inr h
  Alive-set key r (suc i) k k' (x ∷ ks) e f (inl here) = inl here
  Alive-set key r (suc i) k k' (x ∷ ks) e f (inr h) = inr (Alive-set key r i k k' ks e f h)

  pub Alive-at :
      (key : String) (r i : ℕ) (k k' : Conn S P C) (ks : List (Conn S P C))
      → get_elem? ks i ≡ some k
      → Has key r k'
      → Alive key r (set ks i k')
  Alive-at key r i k k' [] e h = absurd (cc)
  Alive-at key r zero k k' (x ∷ ks) e h = inl h
  Alive-at key r (suc i) k k' (x ∷ ks) e h = inr (Alive-at key r i k k' ks e h)

  pub Alive-snoc :
      (key : String) (r : ℕ) (k : Conn S P C) (ks : List (Conn S P C))
      → Alive key r ks
      → Alive key r (ks ++ k ∷ [])
  Alive-snoc key r k [] h = absurd h
  Alive-snoc key r k (x ∷ ks) (inl here) = inl here
  Alive-snoc key r k (x ∷ ks) (inr h) = inr (Alive-snoc key r k ks h)
