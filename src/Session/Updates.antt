-- ===== src/Session/Updates.antt =====
-- pkg/session.go, `UpdatePresenceMetaForPeer`: the presence map, its revision, and what peers see.
use Prim.Native.Nat.{min}
use ion_cluster.Base.{
  ℕ, ◌+◌, ◌-◌, ◌%◌, ◌^◌, ◌<◌, ◌≡◌, refl, ap, ◌∙◌, String, Option, none, some, List, [], ◌∷◌, ◌++◌,
  Map, lookup, HasUniqueKeys, lookup-insert, lookup-delete, insert-HasUniqueKeys,
  delete-HasUniqueKeys, length, get_elem?, replicate, arith, ite, text_discrete,
}
use ion_cluster.Session.{
  Sfu, Presence, Params, Broadcast, Chan, Session, put_meta, presence_message,
  update_presence_meta_for_peer,
}
use ion_cluster.Session.Delivery.{count_listeners, broadcast-delivers}

pub lookup-put_meta :
    {V : Type 0} (p k : String) (meta : Option V) (m : Map V)
    → lookup k (put_meta p meta m) ≡ ite (text_discrete p k) meta (lookup k m)
lookup-put_meta p k (some v) m = lookup-insert p k v m
lookup-put_meta p k none m = lookup-delete p k m

put_meta-HasUniqueKeys :
    {V : Type 0} (p : String) (meta : Option V) (m : Map V)
    → HasUniqueKeys m
    → HasUniqueKeys (put_meta p meta m)
put_meta-HasUniqueKeys p (some v) m u = insert-HasUniqueKeys p v m u
put_meta-HasUniqueKeys p none m u = delete-HasUniqueKeys p m u

module _ {S : Sfu} (pod : String) where
  -- An update sets or removes the one peer's entry, keeps every other entry, the uniqueness of the
  -- keys, the listeners and the SFU's session, and moves the revision on by one, modulo 2^64.
  pub update_presence_lem :
      (p : String) (meta : Option (S.Value)) (s : Session S) (chans : List (Chan S))
      → HasUniqueKeys s.presence
      → let s' : Session S = (update_presence_meta_for_peer pod p meta s chans).0 in
        ((k : String) → lookup k s'.presence ≡ ite (text_discrete p k) meta (lookup k s.presence))
        × HasUniqueKeys s'.presence
        × (s'.presence_revision ≡ (s.presence_revision + 1) % 2 ^ 64)
        × (s'.broadcast_listeners ≡ s.broadcast_listeners)
        × (s'.local ≡ s.local)
  unfolding update_presence_meta_for_peer
  update_presence_lem p meta s chans u = (
    λ k. lookup-put_meta p k meta s.presence,
    put_meta-HasUniqueKeys p meta s.presence u,
    refl,
    refl,
    refl,
  )

  -- The message that an update broadcasts.
  abbrev pub update_message : String → Option (S.Value) → Session S → Broadcast S
  update_message p meta s =
      presence_message pod ((s.presence_revision + 1) % 2 ^ 64) (put_meta p meta s.presence)

  pub update-delivers :
      (p : String) (meta : Option (S.Value)) (s : Session S) (chans : List (Chan S)) (i : ℕ)
      (ch : Chan S)
      → get_elem? chans i ≡ some ch
      → get_elem? (update_presence_meta_for_peer pod p meta s chans).1 i
        ≡ some (record ch {
          buffer =
              ch.buffer
              ++ replicate
                  (min (count_listeners i s.broadcast_listeners) (ch.cap - length ch.buffer))
                  (update_message p meta s);
        })
  unfolding update_presence_meta_for_peer
  update-delivers p meta s chans i ch e =
      broadcast-delivers (update_presence_meta_for_peer pod p meta s chans).0
        (update_message p meta s) chans i ch e

  -- A peer whose channel has room and is registered once gets exactly one message, behind what it
  -- has not read yet: the method "presence" with the new revision and a map that agrees with the
  -- session's presence on every key, provided that the deep copy copies.
  pub update_reaches_listener :
      (p : String) (meta : Option (S.Value)) (s : Session S) (chans : List (Chan S)) (i : ℕ)
      (ch : Chan S)
      → ((m : Map (S.Value)) (k : String) → lookup k (S.deepcopy m) ≡ lookup k m)
      → get_elem? chans i ≡ some ch
      → count_listeners i s.broadcast_listeners ≡ 1
      → length ch.buffer < ch.cap
      → let (s', chans') = update_presence_meta_for_peer pod p meta s chans in
        (msg : Presence S) × (get_elem? chans' i
          ≡ some (record ch {
            buffer = ch.buffer ++ record { method = "presence"; params = Params.presence msg } ∷ [];
          }))
        × (msg.revision ≡ s'.presence_revision)
        × ((k : String) → lookup k msg.meta ≡ lookup k s'.presence)
  unfolding update_presence_meta_for_peer
  update_reaches_listener p meta s chans i ch copies e once room =
      let sent : min (count_listeners i s.broadcast_listeners) (ch.cap - length ch.buffer) ≡ 1 =
        omega arith in
      (
        record {
          revision = (s.presence_revision + 1) % 2 ^ 64;
          meta = S.deepcopy (put_meta p meta s.presence);
          system_info = ("pod", pod) ∷ [];
        },
        update-delivers p meta s chans i ch e
            ∙ ap
                (λ n.
                  some (record ch { buffer = ch.buffer ++ replicate n (update_message p meta s) }))
                sent,
        refl,
        λ k. copies _ k,
      )
