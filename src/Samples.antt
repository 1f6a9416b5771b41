-- ===== src/Samples.antt =====
-- Concrete instances of what the model takes from packages, for the tests: an SFU whose values are
-- texts, an etcd that is a map, a peer that takes its id at its one join, a token library whose tokens are
-- their session ids in clear, and a peer connection that counts its candidates.
use ion_cluster.Base.{
  ℕ, suc, ◌≡◌, refl, String, Bool, true, false, Option, none, some, List, [], ◌∷◌, ◌++◌, Map,
  lookup, insert, delete, lookup-insert, lookup-delete, inl, arith, if◌then◌else◌,
}
use ion_cluster.Base.Int.{pos}
use ion_cluster.Config.{AuthConfig}
use ion_cluster.Session.{Sfu}
use ion_cluster.Coordinator.{from_library, ok, err, World}
use ion_cluster.Coordinator.Local.{LocalCoordinator}
use ion_cluster.Coordinator.Local.Invariant.{start_world}
use ion_cluster.Coordinator.Wire.{Json}
use ion_cluster.Coordinator.Etcd.{EtcdApi, EtcdCoordinator}
use ion_cluster.Coordinator.Etcd.Service.{EtcdLaws}
use ion_cluster.Rpc.{PeerApi, Conn}
use ion_cluster.Rpc.Acts.{PeerLaws}
use ion_cluster.Client.{PcApi}
use ion_cluster.Client.Candidates.{PcLaws}
use ion_cluster.Client.Signal.{JsonRpcApi}
use ion_cluster.Auth.{JwtApi, JwtLaws}

abbrev pub sfu : Sfu
sfu = record {
  Value = String;
  SessionLocal = String;
  Datachannels = Unit {0};
  TransportConfig = Unit {0};
  new_session_local = λ id dcs cfg. id;
  deepcopy = λ m. m;
}

-- An etcd with one client: `deletes` says whether deletions succeed.
abbrev pub etcd : Bool → EtcdApi
etcd deletes = record {
  State = Map Json;
  Lease = ℕ;
  new_session = λ s. (ok tt, s);
  lock = λ k s. (ok tt, s);
  unlock = λ k s. s;
  get = λ k s. (ok (lookup k s), s);
  grant = λ s. (ok 1, s);
  keep_alive = λ l s. s;
  put = λ k v l s. (ok tt, insert k v s);
  delete =
      λ k s. (if deletes then (ok tt, delete k s) else (err (from_library "etcd is not there"), s));
  cancel_lease = λ l s. s;
}

pub etcd_laws : EtcdLaws (etcd true)
etcd_laws = record {
  kv = λ s k. lookup k s;
  kv-new_session = λ s j. refl;
  kv-lock = λ k s j. refl;
  kv-unlock = λ k s j. refl;
  kv-get = λ k s j. refl;
  kv-grant = λ s j. refl;
  kv-keep_alive = λ l s j. refl;
  kv-cancel_lease = λ l s j. refl;
  get_result = λ k s v h. ground arith;
  kv-put = λ k v l s h. ground (arith, lookup-insert k k v s);
  kv-put_either = λ k v l s. inl (ground (arith, lookup-insert k k v s));
  kv-put_ne = λ k j v l s ne. ground (arith, lookup-insert k j v s);
  kv-delete = λ k s h. ground (arith, lookup-delete k k s);
  kv-delete_either = λ k s. inl (ground (arith, lookup-delete k k s));
  kv-delete_ne = λ k j s ne. ground (arith, lookup-delete k j s);
}

-- What the laws call the map is the map.
pub etcd_laws_kv : (s : Map Json) (k : String) → etcd_laws.kv s k ≡ lookup k s
unfolding etcd_laws
etcd_laws_kv s k = refl

abbrev pub etcd_node : (deletes : Bool) → String → EtcdCoordinator sfu (etcd deletes)
etcd_node deletes id = record {
  node_id = id;
  node_endpoint = id;
  client = [];
  w = tt;
  datachannels = tt;
  local_sessions = [];
  session_leases = [];
}

abbrev pub etcd_world :
    (deletes : Bool) → String → Map Json → World sfu (EtcdCoordinator sfu (etcd deletes))
etcd_world deletes id client = record {
  coordinator = record (etcd_node deletes id) { client = client };
  sessions = [];
  chans = [];
  gauges = record { sessions = pos 0; clients = pos 0; proxy_clients = pos 0 };
}

abbrev pub peers : PeerApi sfu
peers = record {
  Peer = String × Bool;
  Description = String;
  Candidate = String;
  Raw = String;
  id = λ p. p.0;
  asks_provider = λ sid uid p. true;
  join = λ sid uid found p.
      (if p.1 then (err (from_library "already joined"), p) else (ok tt, (uid, true)));
  answer = λ d p. (ok "answer", p);
  set_remote_description = λ d p. (ok tt, p);
  close = λ p. p;
  trickle = λ x target p. (ok tt, p);
  decode_join = λ raw. ok (record { sid = raw; uid = "u"; offer = "offer" });
  decode_negotiation = λ raw. ok (record { desc = raw });
  decode_trickle = λ raw. ok (record { target = pos 0; candidate = raw });
  decode_meta = λ raw. ok raw;
}

abbrev pub local_world : World sfu (LocalCoordinator sfu)
local_world = start_world "n1" "ws://n1:7000" tt tt

abbrev pub conn : Conn sfu peers (LocalCoordinator sfu)
conn = record {
  peer = ("", false);
  sid = "";
  callbacks = false;
  listeners = [];
  closed = false;
  out = [];
  world = local_world;
}

abbrev pub jwt : JwtApi
jwt = record {
  Claims = Unit {0};
  claims_valid = λ c. none;
  parse_with_claims = λ text key valid.
      elim (valid (record { sid = text; standard_claims = none })) [
        | none ↦ ok (record { sid = text; standard_claims = none })
        | some e ↦ err e
      ];
}

pub jwt_laws : JwtLaws jwt
jwt_laws = record {
  Signed = λ text key t. t.sid ≡ text;
  parse_signed = λ text key valid t h. ground arith;
  parse_valid = λ text key valid t h. ground arith;
}

abbrev pub auth : AuthConfig
auth = record { enabled = true; key = "k"; key_type = "HMAC" }

-- A peer connection is its remote description, if it has one, and the candidates it has taken.
abbrev pub pcs : PcApi
pcs = record {
  Pc = Option String × List String;
  Description = String;
  Candidate = String;
  Track = String;
  create_offer = λ pc. (ok "offer", pc);
  create_answer = λ pc. (ok "answer", pc);
  set_local_description = λ d pc. (ok tt, pc);
  set_remote_description = λ d pc. (ok tt, (some d, pc.1));
  has_remote_description = λ pc. elim pc.0 [ none ↦ false | some _ ↦ true ];
  add_ice_candidate = λ x pc. (ok tt, (pc.0, pc.1 ++ x ∷ []));
  add_track = λ t pc. (ok tt, pc);
  create_data_channel = λ label pc. (ok tt, pc);
}

abbrev pub pc_laws : PcLaws pcs
pc_laws = record {
  added = λ pc. pc.1;
  add-added = λ x pc h. (refl, h);
  set_remote-ok = λ d pc h. refl;
  set_remote-keeps = λ d pc. (λ h. refl, refl);
  create_offer-keeps = λ pc. (refl, refl);
  create_answer-keeps = λ pc. (refl, refl);
  set_local-keeps = λ d pc. (refl, refl);
}

-- A connection is the number of the messages sent on it.
abbrev pub rpc : JsonRpcApi pcs
rpc = record {
  Jc = ℕ;
  Raw = String;
  dial = λ url. ok 0;
  close = λ n. (ok tt, n);
  call_description = λ m n. (ok (some "answer"), suc n);
  call = λ m n. (ok tt, suc n);
  notify = λ m n. (ok tt, suc n);
  decode_description = λ raw. ok raw;
  decode_trickle = λ raw. ok (record { target = pos 1; candidate = raw });
}

pub peer_laws : PeerLaws peers
peer_laws = record {
  joined = λ p. p.1;
  join-joined = λ sid uid found p h. ground arith;
  join-again = λ sid uid found p h. ground arith;
  answer-keeps = λ d p. (refl, refl);
  set_remote_description-keeps = λ d p. (refl, refl);
  close-keeps = λ p. (refl, refl);
  trickle-keeps = λ x target p. (refl, refl);
}
