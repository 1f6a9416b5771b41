-- ===== src/Session/Ranging.antt =====
-- pkg/session.go, `Broadcast`: Go ranges over the map of listeners in any order.
use mathlib.Core.List.{Permᴰ}
use ion_cluster.Base.{ℕ, zero, suc, ◌≡◌, refl, ap, ◌∙◌, List, [], ◌∷◌, Map}
use ion_cluster.Session.{Sfu, Broadcast, Chan, Session, send_at, broadcast_to, broadcast}

module _ {S : Sfu} (msg : Broadcast S) where
  send_at-send_at :
      (i j : ℕ) (chans : List (Chan S))
      → send_at i msg (send_at j msg chans) ≡ send_at j msg (send_at i msg chans)
  send_at-send_at i j [] = refl
  send_at-send_at zero zero (ch ∷ chans) = refl
  send_at-send_at zero (suc j) (ch ∷ chans) = refl
  send_at-send_at (suc i) zero (ch ∷ chans) = refl
  send_at-send_at (suc i) (suc j) (ch ∷ chans) = ap (λ l. ch ∷ l) (send_at-send_at i j chans)

  broadcast_to_any_order :
      {ls ls' : Map ℕ} (chans : List (Chan S))
      → Permᴰ ls ls'
      → broadcast_to ls msg chans ≡ broadcast_to ls' msg chans
  unfolding broadcast_to
  broadcast_to_any_order chans Permᴰ.nil = refl
  broadcast_to_any_order chans (Permᴰ.cons {a = a} {l₂ = rest} e p) =
      broadcast_to_any_order (send_at a.1 msg chans) p
      ∙ ap (λ x. broadcast_to rest msg (send_at x.1 msg chans)) e
  broadcast_to_any_order chans (Permᴰ.swap {a = a} {b = b} {b' = b'} {l = rest} e f) =
      ap (broadcast_to rest msg) (send_at-send_at b.1 a.1 chans)
      ∙ ap (λ x. broadcast_to rest msg (send_at x.1 msg (send_at b.1 msg chans))) e
      ∙ ap (λ x. broadcast_to rest msg (send_at b'.1 msg (send_at x.1 msg chans))) f
  broadcast_to_any_order chans (Permᴰ.trans p q) =
      broadcast_to_any_order chans p ∙ broadcast_to_any_order chans q

  -- In whatever order a broadcast goes through the listeners, it leaves the channels the same.
  pub broadcast_any_order :
      (s : Session S) (ls : Map ℕ) (chans : List (Chan S))
      → Permᴰ s.broadcast_listeners ls
      → broadcast s msg chans ≡ broadcast (record s { broadcast_listeners = ls }) msg chans
  unfolding broadcast
  broadcast_any_order s ls chans p = broadcast_to_any_order chans p
