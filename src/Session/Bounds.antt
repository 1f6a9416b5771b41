-- ===== src/Session/Bounds.antt =====
-- pkg/session.go: no broadcast overfills a channel, and none adds or takes one away.
use ion_cluster.Base.{
  ℕ, zero, suc, ◌≤◌, ◌≡◌, refl, ◌∙◌, List, [], ◌∷◌, Map, length, length-append, All, Option, String,
  arith,
}
use ion_cluster.Session.{
  Sfu, Broadcast, Chan, Session, try_send, send_at, broadcast_to, broadcast,
  update_presence_meta_for_peer,
}

module _ {S : Sfu} where
  -- A channel holds no more than its capacity.
  abbrev pub IsBounded : Chan S → Type 0
  IsBounded ch = length ch.buffer ≤ ch.cap

  try_send-IsBounded :
      (msg : Broadcast S) (ch : Chan S) → IsBounded ch → IsBounded (try_send msg ch)
  try_send-IsBounded msg ch h = ground (arith, length-append ch.buffer (msg ∷ []))

  send_at-All :
      (i : ℕ) (msg : Broadcast S) (chans : List (Chan S))
      → All IsBounded chans
      → All IsBounded (send_at i msg chans) × (length (send_at i msg chans) ≡ length chans)
  send_at-All i msg [] h = (tt, refl)
  send_at-All zero msg (ch ∷ chs) (b, h) = ((try_send-IsBounded msg ch b, h), refl)
  send_at-All (suc i) msg (ch ∷ chs) (b, h) =
      let (rest, same) = send_at-All i msg chs h in ((b, rest), omega (arith, same))

  broadcast_to-All :
      (ls : Map ℕ) (msg : Broadcast S) (chans : List (Chan S))
      → All IsBounded chans
      → All IsBounded (broadcast_to ls msg chans)
        × (length (broadcast_to ls msg chans) ≡ length chans)
  unfolding broadcast_to
  broadcast_to-All [] msg chans h = (h, refl)
  broadcast_to-All ((k, c) ∷ ls) msg chans h =
      let (sent, same) = send_at-All c msg chans h in
      let (rest, same') = broadcast_to-All ls msg (send_at c msg chans) sent in (rest, same' ∙ same)

  -- An update of a presence keeps every channel within its capacity, and their number.
  pub update-All :
      (pod p : String) (meta : Option (S.Value)) (s : Session S) (chans : List (Chan S))
      → All IsBounded chans
      → let chans' = (update_presence_meta_for_peer pod p meta s chans).1 in
        All IsBounded chans' × (length chans' ≡ length chans)
  unfolding update_presence_meta_for_peer broadcast
  update-All pod p meta s chans h = broadcast_to-All s.broadcast_listeners _ chans h
