-- ===== src/Coordinator/Etcd/Threads/Samples.antt =====
-- An etcd that is a map, a table of locks and a table of the leases that are kept alive, for the tests.
use ion_cluster.Base.{
  ◌≡◌, ◌≢◌, refl, ap, String, Bool, true, false, Option, none, some, Map, lookup, insert, delete,
  lookup-insert, lookup-delete, arith, inl,
}
use ion_cluster.Coordinator.{from_library, Result, ok, err}
use ion_cluster.Coordinator.Wire.{Json}
use ion_cluster.Coordinator.Etcd.{EtcdApi}
use ion_cluster.Coordinator.Etcd.Service.{EtcdLaws, LockLaws, LeaseLaws}

pub record Store : Type 0 where
  pub entries : Map Json
  pub locks : Map (Unit {0})
  pub kept : Map (Unit {0})

unfoldable pub is_held : Option (Unit {0}) → Bool
is_held none = false
is_held (some _) = true

unfoldable pub taken : String → Option (Unit {0}) → Store → Result (Unit {0}) × Store
taken k (some _) s = (err (from_library "context deadline exceeded"), s)
taken k none s = (ok tt, record s { locks = insert k tt s.locks })

abbrev pub etcd : EtcdApi
etcd = record {
  State = Store;
  Lease = String;
  new_session = λ s. (ok tt, s);
  lock = λ k s. taken k (lookup k s.locks) s;
  unlock = λ k s. record s { locks = delete k s.locks };
  get = λ k s. (ok (lookup k s.entries), s);
  grant = λ s. (ok "lease", s);
  keep_alive = λ l s. record s { kept = insert l tt s.kept };
  put = λ k v l s. (ok tt, record s { entries = insert k v s.entries });
  delete = λ k s. (ok tt, record s { entries = delete k s.entries });
  cancel_lease = λ l s. record s { kept = delete l s.kept };
}

pub taken-entries :
    (k : String) (x : Option (Unit {0})) (s : Store) → (taken k x s).1.entries ≡ s.entries
unfolding taken
taken-entries k none s = refl
taken-entries k (some _) s = refl

module _ (k j : String) (v : Json) (s : Store) where
  pub lookup-put : lookup k (insert k v s.entries) ≡ some v
  lookup-put = ground (arith, lookup-insert k k v s.entries)

  pub lookup-put_ne : k ≢ j → lookup j (insert k v s.entries) ≡ lookup j s.entries
  lookup-put_ne ne = ground (arith, lookup-insert k j v s.entries)

module _ (k j : String) (s : Store) where
  pub lookup-gone : lookup k (delete k s.entries) ≡ none
  lookup-gone = ground (arith, lookup-delete k k s.entries)

  pub lookup-gone_ne : k ≢ j → lookup j (delete k s.entries) ≡ lookup j s.entries
  lookup-gone_ne ne = ground (arith, lookup-delete k j s.entries)

  pub read_value : (v : Option Json) → ok (lookup k s.entries) ≡ ok v → lookup k s.entries ≡ v
  read_value v h = ground arith

unfoldable pub laws : EtcdLaws etcd
laws = record {
  kv = λ s k. lookup k s.entries;
  kv-new_session = λ s j. refl;
  kv-lock = λ k s j. ap (lookup j) (taken-entries k (lookup k s.locks) s);
  kv-unlock = λ k s j. refl;
  kv-get = λ k s j. refl;
  kv-grant = λ s j. refl;
  kv-keep_alive = λ l s j. refl;
  kv-cancel_lease = λ l s j. refl;
  get_result = λ k s v h. read_value k k s v h;
  kv-put = λ k v l s h. lookup-put k k v s;
  kv-put_either = λ k v l s. inl (lookup-put k k v s);
  kv-put_ne = λ k j v l s ne. lookup-put_ne k j v s ne;
  kv-delete = λ k s h. lookup-gone k k s;
  kv-delete_either = λ k s. inl (lookup-gone k k s);
  kv-delete_ne = λ k j s ne. lookup-gone_ne k j s ne;
}

pub lock_laws : LockLaws etcd
unfolding is_held taken
lock_laws = record {
  held = λ s k. is_held (lookup k s.locks);
  lock_free = λ k s h. ground arith;
  lock_held = λ k s h. ground (arith, lookup-insert k k tt s.locks);
  lock_keeps = λ k s j h. ground (arith, lookup-insert k j tt s.locks);
  unlock_keeps = λ k s j ne. ground (arith, lookup-delete k j s.locks);
  held-new_session = λ s j. refl;
  held-get = λ k s j. refl;
  held-grant = λ s j. refl;
  held-keep_alive = λ l s j. refl;
  held-put = λ k v l s j. refl;
  held-delete = λ k s j. refl;
  held-cancel_lease = λ l s j. refl;
}

pub lookup-renewed : (l : String) (m : Map (Unit {0})) → is_held (lookup l (insert l tt m)) ≡ true
unfolding is_held
lookup-renewed l m = ground (arith, lookup-insert l l tt m)

pub lookup-let_go : (l : String) (m : Map (Unit {0})) → is_held (lookup l (delete l m)) ≡ false
unfolding is_held
lookup-let_go l m = ground (arith, lookup-delete l l m)

unfoldable pub lease_laws : LeaseLaws etcd
lease_laws = record {
  kept = λ s l. is_held (lookup l s.kept);
  kept-keep_alive = λ l s. lookup-renewed l s.kept;
  kept-cancel_lease = λ l s. lookup-let_go l s.kept;
  kept-delete = λ k s l. refl;
  kept-unlock = λ k s l. refl;
}
