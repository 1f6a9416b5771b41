-- ===== src/Coordinator/Etcd/Service.antt =====
-- What pkg/coordinator_etcd.go relies on of etcd, seen as a map from session keys to values.
-- The keys that etcd's mutexes make for themselves are not part of that map.
use ion_cluster.Base.{◌≡◌, ◌≢◌, ◌⊎◌, String, Bool, true, false, Option, none, some}
use ion_cluster.Coordinator.{Error, ok, err}
use ion_cluster.Coordinator.Wire.{Json}
use ion_cluster.Coordinator.Etcd.{EtcdApi}

pub record EtcdLaws (E : EtcdApi) : Type 1 where
  pub kv : E.State → String → Option Json
  -- Reads, locks and leases change no session key. A lease that is let go expires later.
  pub kv-new_session : (s : E.State) (j : String) → kv (E.new_session s).1 j ≡ kv s j
  pub kv-lock : (k : String) (s : E.State) (j : String) → kv (E.lock k s).1 j ≡ kv s j
  pub kv-unlock : (k : String) (s : E.State) (j : String) → kv (E.unlock k s) j ≡ kv s j
  pub kv-get : (k : String) (s : E.State) (j : String) → kv (E.get k s).1 j ≡ kv s j
  pub kv-grant : (s : E.State) (j : String) → kv (E.grant s).1 j ≡ kv s j
  pub kv-keep_alive : (l : E.Lease) (s : E.State) (j : String) → kv (E.keep_alive l s) j ≡ kv s j
  pub kv-cancel_lease :
      (l : E.Lease) (s : E.State) (j : String) → kv (E.cancel_lease l s) j ≡ kv s j
  -- A read that succeeds gives what the key holds.
  pub get_result : (k : String) (s : E.State) (v : Option Json) → (E.get k s).0 ≡ ok v → kv s k ≡ v
  -- A write that succeeds is seen; one that fails may have been made or not. Other keys stay.
  pub kv-put :
      (k : String) (v : Json) (l : E.Lease) (s : E.State)
      → (E.put k v l s).0 ≡ ok tt
      → kv (E.put k v l s).1 k ≡ some v
  pub kv-put_either :
      (k : String) (v : Json) (l : E.Lease) (s : E.State)
      → (kv (E.put k v l s).1 k ≡ some v) ⊎ (kv (E.put k v l s).1 k ≡ kv s k)
  pub kv-put_ne :
      (k j : String) (v : Json) (l : E.Lease) (s : E.State)
      → k ≢ j
      → kv (E.put k v l s).1 j ≡ kv s j
  pub kv-delete :
      (k : String) (s : E.State) → (E.delete k s).0 ≡ ok tt → kv (E.delete k s).1 k ≡ none
  pub kv-delete_either :
      (k : String) (s : E.State) → (kv (E.delete k s).1 k ≡ none) ⊎ (kv (E.delete k s).1 k ≡ kv s k)
  pub kv-delete_ne : (k j : String) (s : E.State) → k ≢ j → kv (E.delete k s).1 j ≡ kv s j

-- What it relies on of etcd's mutexes: who has locked one holds it, whatever else is asked of etcd,
-- until it is unlocked, and while it is held nobody locks it. An etcd mutex is given up for its
-- holder when that has not been heard of for the TTL of its session, 60 seconds; the laws leave that
-- out.
pub record LockLaws (E : EtcdApi) : Type 1 where
  pub held : E.State → String → Bool
  pub lock_free : (k : String) (s : E.State) → (E.lock k s).0 ≡ ok tt → held s k ≡ false
  pub lock_held : (k : String) (s : E.State) → (E.lock k s).0 ≡ ok tt → held (E.lock k s).1 k ≡ true
  pub lock_keeps :
      (k : String) (s : E.State) (j : String)
      → (k ≢ j) ⊎ ((e : Error) × ((E.lock k s).0 ≡ err e))
      → held (E.lock k s).1 j ≡ held s j
  pub unlock_keeps :
      (k : String) (s : E.State) (j : String) → k ≢ j → held (E.unlock k s) j ≡ held s j
  pub held-new_session : (s : E.State) (j : String) → held (E.new_session s).1 j ≡ held s j
  pub held-get : (k : String) (s : E.State) (j : String) → held (E.get k s).1 j ≡ held s j
  pub held-grant : (s : E.State) (j : String) → held (E.grant s).1 j ≡ held s j
  pub held-keep_alive :
      (l : E.Lease) (s : E.State) (j : String) → held (E.keep_alive l s) j ≡ held s j
  pub held-put :
      (k : String) (v : Json) (l : E.Lease) (s : E.State) (j : String)
      → held (E.put k v l s).1 j ≡ held s j
  pub held-delete : (k : String) (s : E.State) (j : String) → held (E.delete k s).1 j ≡ held s j
  pub held-cancel_lease :
      (l : E.Lease) (s : E.State) (j : String) → held (E.cancel_lease l s) j ≡ held s j

-- What it relies on of leases: `KeepAlive` renews one, until its context is cancelled. Deleting a key
-- and unlocking a mutex renew none.
pub record LeaseLaws (E : EtcdApi) : Type 1 where
  pub kept : E.State → E.Lease → Bool
  pub kept-keep_alive : (l : E.Lease) (s : E.State) → kept (E.keep_alive l s) l ≡ true
  pub kept-cancel_lease : (l : E.Lease) (s : E.State) → kept (E.cancel_lease l s) l ≡ false
  pub kept-delete : (k : String) (s : E.State) (l : E.Lease) → kept (E.delete k s).1 l ≡ kept s l
  pub kept-unlock : (k : String) (s : E.State) (l : E.Lease) → kept (E.unlock k s) l ≡ kept s l
