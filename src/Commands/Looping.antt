-- ===== src/Commands/Looping.antt =====
-- cmd/client.go: how the thread of the client command stands after the events of its loop.
use ion_cluster.Base.{
  ◌≡◌, ◌≢◌, refl, inl, inr, ◌⊎◌, String, Bool, true, false, Option, none, some, List, [], ◌∷◌, ite,
  text_discrete,
}
use mathlib.Core.Option.{some-injective}
use ion_cluster.Coordinator.{Error, Result, ok, err}
use ion_cluster.Rpc.{Outcome, done, panics}
use ion_cluster.Client.{PcApi, Producer, Message, new_client, join, publish}
use ion_cluster.Client.Signal.{
  JsonRpcApi, JsonRpcSignalClient, new_jsonrpc_signal_client, open_connection,
}
use ion_cluster.Commands.Clients.{
  Flags, endpoint, Event, ticks, signals, closes, Thread, returned, crashed, exited, waits,
  ClientOf, loop, produce, went_then, publish_and_loop, joined_then, opened_then, client_thread,
  ping_signal,
}
use ion_cluster.Commands.Connected.{
  IsOpen, NullJoin, NullOffer, Goes, join-Goes, publish-Goes, ping-Keeps, close-Keeps,
}

-- The connection has ended among the events.
abbrev pub has_closed : List Event → Bool
has_closed [] = false
has_closed (closes ∷ events) = true
has_closed (ticks ∷ events) = has_closed events
has_closed (signals ∷ events) = has_closed events

picked-fine :
    {A X : Type 0} (d : Dec X) (x y : Outcome A)
    → x ≢ panics
    → y ≢ panics
    → ite d (some x) (some y) ≢ some panics
picked-fine (yes _) x y hx hy e = hx (some-injective x panics e)
picked-fine (no _) x y hx hy e = hy (some-injective y panics e)

produce-fine :
    {P : PcApi} (producer : String → String → Outcome (Producer P)) (args : List String)
    → ((kind path : String) → producer kind path ≢ panics)
    → produce producer args ≢ some panics
produce-fine producer [] fine e = cc
produce-fine producer (arg ∷ _) fine e =
    picked-fine (text_discrete arg "test") (producer "video" "") (producer "screen" arg)
      (fine "video" "") (fine "screen" arg) e

module _ {P : PcApi} {R : JsonRpcApi P} where
  abbrev pub Loops : Thread (ClientOf P R) → List Event → Thread (ClientOf P R) → Type 0
  Loops at_close events t =
      ((has_closed events ≡ true) × (t ≡ at_close))
      ⊎ ((has_closed events ≡ false) × ((c : ClientOf P R) × (t ≡ waits c)))

  loop-Loops :
      (at_close : Thread (ClientOf P R)) (events : List Event) (c : ClientOf P R)
      → IsOpen c.signal
      → Loops at_close events (loop at_close events c)
  unfolding loop
  loop-Loops at_close [] c h = inr (refl, (c, refl))
  loop-Loops at_close (closes ∷ events) c h = inl (refl, refl)
  loop-Loops at_close (ticks ∷ events) c h =
      loop-Loops at_close events (ping_signal c) (ping-Keeps c h)
  loop-Loops at_close (signals ∷ events) c h =
      let (c', closed, h') = close-Keeps c h in rw (closed, loop) (loop-Loops at_close events c' h')

  -- How the thread of the client command stands: it has returned an error, or panicked for want of a
  -- client or of an answer, or the program has ended with 1 and the connection had ended, or it waits.
  abbrev pub Stands : String → Result (ClientOf P R) → List Event → Thread (ClientOf P R) → Type 0
  Stands sid made events t =
      ((e : Error) × (t ≡ returned (some e)))
      ⊎ ((t ≡ crashed) × (((e : Error) × (made ≡ err e)) ⊎ NullJoin R sid ⊎ NullOffer R))
      ⊎ ((t ≡ exited 1) × (has_closed events ≡ true))
      ⊎ (((c : ClientOf P R) × (t ≡ waits c)) × (has_closed events ≡ false))

  looping :
      (sid : String) (made : Result (ClientOf P R)) (events : List Event) (c : ClientOf P R)
      → IsOpen c.signal
      → Stands sid made events (loop (exited 1) events c)
  looping sid made events c h = elim (loop-Loops (exited 1) events c h) [
    | inl (closed, e) ↦ inr (inr (inl (e, closed)))
    | inr (open_, (c', e)) ↦ inr (inr (inr ((c', e), open_)))
  ]

  -- A step that panics only for want of an answer, and what follows it.
  going :
      (N : Type 0) (sid : String) (made : Result (ClientOf P R))
      (f : ClientOf P R → Thread (ClientOf P R)) (events : List Event)
      (o : Outcome (Result (Unit {0}) × ClientOf P R))
      → (N → NullJoin R sid ⊎ NullOffer R)
      → ((c : ClientOf P R) → IsOpen c.signal → Stands sid made events (f c))
      → Goes N o
      → Stands sid made events (went_then f o)
  going N sid made f events panics null hf n = inr (inl (refl, inr (null n)))
  going N sid made f events (done (err e, c)) null hf h = inl (e, refl)
  going N sid made f events (done (ok _, c)) null hf h = hf c h

  publishing :
      (sid : String) (made : Result (ClientOf P R)) (o : Option (Outcome (Producer P)))
      (events : List Event) (c : ClientOf P R)
      → o ≢ some panics
      → IsOpen c.signal
      → Stands sid made events (publish_and_loop o events c)
  publishing sid made none events c fine h = looping sid made events c h
  publishing sid made (some panics) events c fine h = absurd (fine refl)
  publishing sid made (some (done p)) events c fine h =
      going (NullOffer R) sid made (loop (exited 1) events) events (publish p c) (λ n. inr n)
        (looping sid made events) (publish-Goes p c h)

  -- An opening that succeeds gives a connection.
  Opened : Result (Unit {0}) × JsonRpcSignalClient P R → Type 0
  Opened (err e, s) = Unit
  Opened (ok _, s) = IsOpen s

  open_connection-Opened :
      (url : String) (s : JsonRpcSignalClient P R) → Opened (open_connection url s)
  unfolding open_connection Opened
  open_connection-Opened url s = by_dial (R.dial url)
    where
      by_dial :
          (d : Result (R.Jc))
          → Opened (elim d [ err e ↦ (err e, s) | ok jc ↦ (ok tt, record s { jc = some jc }) ])
      by_dial (err e) = tt
      by_dial (ok jc) = (jc, refl)

  opening :
      (sid url : String) (f : ClientOf P R → Thread (ClientOf P R)) (events : List Event)
      (s : JsonRpcSignalClient P R) (made : Result (ClientOf P R))
      → ((c : ClientOf P R) → IsOpen c.signal → Stands sid made events (f c))
      → Stands sid made events (opened_then url f made s)
  unfolding Opened
  opening sid url f events s (err e) hf = by_result (open_connection url s)
    where
      by_result :
          (x : Result (Unit {0}) × JsonRpcSignalClient P R)
          → (let t : Thread (ClientOf P R) = elim x.0 [
            | err e ↦ returned (some e)
            | ok _ ↦ crashed
          ] in
              Stands sid (err e) events t)
      by_result (err x, s') = inl (x, refl)
      by_result (ok _, s') = inr (inl (refl, inl (e, refl)))
  opening sid url f events s (ok c) hf =
      by_result (open_connection url c.signal) (open_connection-Opened url c.signal)
    where
      by_result :
          (x : Result (Unit {0}) × JsonRpcSignalClient P R)
          → Opened x
          → (let t : Thread (ClientOf P R) = elim x.0 [
            | err e ↦ returned (some e)
            | ok _ ↦ f (record c { signal = x.1 })
          ] in
              Stands sid (ok c) events t)
      by_result (err e, s') h = inl (e, refl)
      by_result (ok _, s') h = hf (record c { signal = s' }) h

  -- Where a producer can be made without a panic, the thread of the client command, whatever offers, and
  -- candidates for its two connections, come during its join, and whatever ticks and signals after it,
  -- has returned an error, or has panicked, and NewClient had failed or the response to a join of the
  -- session or to an offer is null, or has ended the program with 1 and the connection had ended, or
  -- waits and the connection has not ended.
  pub client_thread-Stands :
      (f : Flags) (producer : String → String → Outcome (Producer P)) (first second : Result (P.Pc))
      (args : List String) (received : List (Message P)) (events : List Event)
      → ((kind path : String) → producer kind path ≢ panics)
      → Stands f.sid
          (new_client new_jsonrpc_signal_client first second)
          events
          (client_thread f producer first second args received events)
  unfolding client_thread
  client_thread-Stands f producer first second args received events fine =
      let made : Result (ClientOf P R) = new_client new_jsonrpc_signal_client first second in
      let rest : ClientOf P R → Thread (ClientOf P R) =
        publish_and_loop (produce producer args) events in
      opening f.sid (endpoint f) (joined_then f.sid received rest) events new_jsonrpc_signal_client
        made
        λ c h.
          going (NullJoin R f.sid) f.sid made rest events (join f.sid received c) (λ n. inl n)
            (λ c'.
              publishing f.sid made (produce producer args) events c'
                (produce-fine producer args fine))
            (join-Goes f.sid received c h)
