-- ===== src/Session/Tests.antt =====
-- pkg/session.go on a session with two peers.
use ion_cluster.Base.{
  ◌≡◌, refl, String, none, some, [], ◌∷◌, lookup, get_elem?, arith, text_discrete,
}
use ion_cluster.Session.{
  Presence, Params, Broadcast, Chan, Session, broadcast, update_presence_meta_for_peer,
}
use ion_cluster.Session.Delivery.{broadcast-delivers}
use ion_cluster.Session.Updates.{update_reaches_listener}
use ion_cluster.Session.History.{
  apply_updates, presence-last_update, revision-apply_updates, Ascends, update-Ascends,
}
use ion_cluster.Session.Ranging.{broadcast_any_order}
use mathlib.Core.List.{Permᴰ}
use ion_cluster.Samples.{sfu}

abbrev hello : Broadcast sfu
hello = record { method = "hello"; params = Params.value "you" }

-- Room for two messages, one waits.
abbrev busy : Chan sfu
busy = record { cap = 2; buffer = hello ∷ [] }

-- Both peers listen on one channel.
abbrev crowded : Session sfu
crowded = record {
  presence = ("p1", "here") ∷ [];
  presence_revision = 7;
  broadcast_listeners = ("p1", 0) ∷ ("p2", 0) ∷ [];
  local = "room";
  on_close = some "room";
}

abbrev room : Session sfu
room = record crowded { broadcast_listeners = ("p1", 0) ∷ ("p2", 1) ∷ [] }

broadcast-delivers_example :
    get_elem? (broadcast crowded hello (busy ∷ [])) 0
    ≡ some (record { cap = 2; buffer = hello ∷ hello ∷ [] })
broadcast-delivers_example = broadcast-delivers crowded hello (busy ∷ []) 0 busy refl

update_reaches_listener_example :
    let (s', chans') = update_presence_meta_for_peer "pod" "p2" (some "away") room (busy ∷ []) in
    (msg : Presence sfu) × (get_elem? chans' 0
      ≡ some (record {
        cap = 2;
        buffer = hello ∷ record { method = "presence"; params = Params.presence msg } ∷ [];
      }))
    × (msg.revision ≡ s'.presence_revision)
    × ((k : String) → lookup k msg.meta ≡ lookup k s'.presence)
update_reaches_listener_example =
    update_reaches_listener "pod" "p2" (some "away") room (busy ∷ []) 0 busy (λ m k. refl) refl refl
      (omega arith)

presence-last_update_example :
    lookup "p1"
      (apply_updates "pod"
        (("p1", none) ∷ ("p2", some "a") ∷ ("p1", some "b") ∷ [])
        (room, [])).0.presence
    ≡ some "b"
unfolding text_discrete
presence-last_update_example =
    presence-last_update "pod" (("p1", none) ∷ ("p2", some "a") ∷ ("p1", some "b") ∷ []) (room, [])
      "p1"

revision-apply_updates_example :
    (apply_updates "pod" (("p1", none) ∷ ("p2", some "a") ∷ []) (room, [])).0.presence_revision ≡ 9
revision-apply_updates_example =
    revision-apply_updates "pod" (("p1", none) ∷ ("p2", some "a") ∷ []) (room, []) (omega arith)

update-Ascends_example :
    let (s', chans') = update_presence_meta_for_peer "pod" "p2" (some "away") room (busy ∷ []) in
    (ch' : Chan sfu) × (get_elem? chans' 0 ≡ some ch') × Ascends 3 ch'.buffer s'.presence_revision
update-Ascends_example =
    update-Ascends "pod" "p2" (some "away") room (busy ∷ []) 0 3 busy refl (omega arith)
      (omega arith) (omega arith)

-- The listeners the other way round.
broadcast_any_order_example :
    broadcast room hello (busy ∷ busy ∷ [])
    ≡ broadcast
        (record room { broadcast_listeners = ("p2", 1) ∷ ("p1", 0) ∷ [] })
        hello
        (busy ∷ busy ∷ [])
broadcast_any_order_example =
    broadcast_any_order hello room (("p2", 1) ∷ ("p1", 0) ∷ []) (busy ∷ busy ∷ [])
      (Permᴰ.swap refl refl)
