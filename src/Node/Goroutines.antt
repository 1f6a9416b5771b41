-- ===== src/Node/Goroutines.antt =====
-- The goroutines of a connection: their start at a join, a message passed on, their end.
use ion_cluster.Base.{
  ℕ, zero, suc, ◌+◌, ◌≤◌, ◌≡◌, refl, sym, inl, inr, String, Option, none, some, List, [], ◌∷◌,
  insert_cases, delete_cases, length, get_elem?, get_elem?_of_lt, length-get_elem?, set, length-set,
  All, All-set, All-snoc, All-get_elem?, length-append, arith, ap, subst,
}
use ion_cluster.Session.{
  Sfu, Session, Chan, Broadcast, broadcast_add_listener, broadcast_remove_listener,
  update_presence_meta_for_peer,
}
use ion_cluster.Session.Bounds.{IsBounded, update-All}
use ion_cluster.Coordinator.{World, Coordinator, CoordinatorLaws, with_session}
use ion_cluster.Rpc.{PeerApi, Listener, Conn, Out, deliver, stop}
use ion_cluster.Rpc.Acts.{subscribed}
use ion_cluster.Rpc.Subscribing.{on_session-some}
use ion_cluster.Node.{after_turn, ended, remove_at}
use ion_cluster.Node.Peers.{
  Alive-set, Alive-at, Reads-append_left, Reads-append_right, Reads-remove_at,
}
use ion_cluster.Node.Turns.{Points, PointsAll, PointsAll-grow, IsSound, turn-IsSound}
use ion_cluster.Node.Moves.{with_session-Lists, Alive-kept, keeps-IsSound}

All-remove_at :
    {A : Type 0} (Q : A → Type 0) (j : ℕ) (xs : List A) → All Q xs → All Q (remove_at j xs)
All-remove_at Q j [] h = tt
All-remove_at Q zero (x ∷ xs) (q, h) = h
All-remove_at Q (suc j) (x ∷ xs) (q, h) = (q, All-remove_at Q j xs h)

module _ {S : Sfu} {P : PeerApi S} {C : Type 0} {c : Coordinator S C} (L : CoordinatorLaws S C c)
    (conns : List (Conn S P C)) (i : ℕ) (j : Conn S P C) (here : get_elem? conns i ≡ some j)
    (h : IsSound L (record { conns = conns; world = j.world })) where
  own : PointsAll j.world j
  own = All-get_elem? (PointsAll j.world) conns i j here h.points

  pub subscribed-IsSound :
      (r0 : ℕ) (s : Session S)
      → get_elem? j.world.sessions r0 ≡ some s
      → IsSound L (after_turn conns i (subscribed c L r0 s j))
  unfolding broadcast_add_listener
  subscribed-IsSound r0 s there =
      let small = length-get_elem? j.world.sessions r0 s there in
      let k' : Conn S P C = subscribed c L r0 s j in
      let opened : Chan S = record { cap = 32; buffer = [] } in
      let longer : length k'.world.chans ≡ length j.world.chans + 1 =
        length-append j.world.chans (opened ∷ []) in
      let more : length k'.world.sessions ≡ length j.world.sessions =
        length-set j.world.sessions r0
          (broadcast_add_listener (P.id j.peer) (length j.world.chans) s) in
      let kept = Alive-kept i j k' conns here (inr refl) (λ q. Reads-append_left q j.listeners _) in
      turn-IsSound L (record { conns = conns; world = j.world }) i k' h
        (L.with_session-IsValid r0 s _ _ _ h.valid there refl)
        (All-snoc IsBounded j.world.chans opened h.bounded (omega arith)) (omega (arith, more))
        (omega (arith, longer))
        (All-snoc (Points k'.world) j.listeners _
          (PointsAll-grow j.world k'.world j (omega (arith, more)) (omega (arith, longer)) own)
          (omega (arith, more, small), omega (arith, longer)))
        (with_session-Lists conns (set conns i k') j.world r0 _ _ h.lists (omega (arith, longer))
          (λ key ch listed.
            elim (insert_cases (P.id j.peer) key _ ch s.broadcast_listeners listed) [
              | inl (same, is) ↦ (
                omega (arith, is, longer),
                Alive-at key r0 i j k' conns here
                    (same, Reads-append_right r0 j.listeners _ (inl refl)),
              )
              | inr (_, old) ↦
                  let (fits, alive) = h.lists r0 s key ch there old in
                  (omega (arith, fits, longer), kept r0 key alive)
            ])
          (λ r key ne. kept r key))

  -- The goroutine has taken the oldest message off the channel.
  taken :
      (l : Listener) (ch : Chan S) (msg : Broadcast S) (rest : List (Broadcast S))
      (out : List (Out S P))
      → get_elem? j.world.chans l.listen ≡ some ch
      → ch.buffer ≡ msg ∷ rest
      → IsSound L (
          after_turn conns i (record j {
            out = out;
            world = record (j.world) {
              chans = set j.world.chans l.listen (record ch { buffer = rest });
            };
          }))
  taken l ch msg rest out there full =
      let chans' : List (Chan S) = set j.world.chans l.listen (record ch { buffer = rest }) in
      let w' : World S C = record (j.world) { chans = chans' } in
      let k' : Conn S P C = record j { out = out; world = w' } in
      let same : length chans' ≡ length j.world.chans =
        length-set j.world.chans l.listen (record ch { buffer = rest }) in
      let was : IsBounded ch = All-get_elem? IsBounded j.world.chans l.listen ch there h.bounded in
      let fewer : length rest ≤ ch.cap = omega (arith, was, ap length full) in
      turn-IsSound L (record { conns = conns; world = j.world }) i k' h
        (L.chans-IsValid j.world chans' h.valid)
        (All-set IsBounded j.world.chans l.listen (record ch { buffer = rest }) h.bounded fewer)
        (omega arith) (omega (arith, same))
        (PointsAll-grow j.world w' j (omega arith) (omega (arith, same)) own)
        λ r s key x at listed.
          let (fits, alive) = h.lists r s key x at listed in
          (
            omega (arith, fits, same),
            Alive-kept i j k' conns here (inr refl) (λ q y. y) r key alive,
          )

  nothing_taken : IsSound L (after_turn conns i j)
  nothing_taken = keeps-IsSound L conns i j here h j refl refl (inr refl)

  pub deliver-IsSound : (l : Listener) → IsSound L (after_turn conns i (deliver l j))
  unfolding deliver
  deliver-IsSound l = by_channel (get_elem? j.world.chans l.listen) refl
    where
      by_buffer :
          (ch : Chan S) (b : List (Broadcast S))
          → get_elem? j.world.chans l.listen ≡ some ch
          → ch.buffer ≡ b
          → IsSound L (after_turn conns i (deliver l j))
      by_buffer ch [] e f = rw (e, deliver, f) nothing_taken
      by_buffer ch (msg ∷ rest) e f = rw (e, deliver, f) (taken l ch msg rest _ e f)

      by_channel :
          (o : Option (Chan S))
          → get_elem? j.world.chans l.listen ≡ o
          → IsSound L (after_turn conns i (deliver l j))
      by_channel none e = rw (e, deliver) nothing_taken
      by_channel (some ch) e = by_buffer ch ch.buffer e refl

  -- The goroutine's session has lost its peer, and the connection the goroutine.
  left :
      (pod : String) (q : ℕ) (l : Listener) (s : Session S)
      → get_elem? j.listeners q ≡ some l
      → get_elem? j.world.sessions l.session ≡ some s
      → let done =
          update_presence_meta_for_peer pod
            (P.id j.peer)
            none
            (broadcast_remove_listener (P.id j.peer) s)
            j.world.chans in
        IsSound L (
          after_turn conns i (record j {
            listeners = remove_at q j.listeners;
            world = with_session l.session done.0 done.1 j.world;
          }))
  unfolding update_presence_meta_for_peer broadcast_remove_listener
  left pod q l s this there =
      let s' : Session S = broadcast_remove_listener (P.id j.peer) s in
      let done = update_presence_meta_for_peer pod (P.id j.peer) none s' j.world.chans in
      let k' : Conn S P C = record j {
        listeners = remove_at q j.listeners;
        world = with_session l.session done.0 done.1 j.world;
      } in
      let (bounded, same) = update-All pod (P.id j.peer) none s' j.world.chans h.bounded in
      let more : length k'.world.sessions ≡ length j.world.sessions =
        length-set j.world.sessions l.session done.0 in
      let points : PointsAll k'.world j =
        PointsAll-grow j.world k'.world j (omega (arith, more)) (omega (arith, same)) own in
      turn-IsSound L (record { conns = conns; world = j.world }) i k' h
        (L.with_session-IsValid l.session s _ _ _ h.valid there refl) bounded (omega (arith, more))
        (omega (arith, same)) (All-remove_at (Points k'.world) q j.listeners points)
        (with_session-Lists conns (set conns i k') j.world l.session _ _ h.lists
          (omega (arith, same))
          (λ key ch listed.
            let (other, old) = delete_cases (P.id j.peer) key ch s.broadcast_listeners listed in
            let (fits, alive) = h.lists l.session s key ch there old in
            (
              omega (arith, fits, same),
              Alive-set key l.session i j k' conns here (λ x. absurd (other x.0)) alive,
            ))
          (λ r key ne.
            Alive-set key r i j k' conns here
              λ x. (x.0, Reads-remove_at r q l j.listeners this ne x.1)))

  pub stop-IsSound :
      (pod : String) (q : ℕ) (l : Listener)
      → get_elem? j.listeners q ≡ some l
      → IsSound L (after_turn conns i (ended pod q l j))
  unfolding stop
  stop-IsSound pod q l this =
      let (small, _) = All-get_elem? (Points j.world) j.listeners q l this own in
      let (s, there) = get_elem?_of_lt j.world.sessions l.session small in
      subst
        (λ w.
          IsSound L
            (after_turn conns i (record j { listeners = remove_at q j.listeners; world = w })))
        (sym (
          on_session-some l.session s
            (λ x chans.
              update_presence_meta_for_peer pod (P.id j.peer) none
                (broadcast_remove_listener (P.id j.peer) x) chans)
            j.world there))
        (left pod q l s this there)
