-- ===== src/Config/Tests.antt =====
-- pkg/config.go on addresses with one colon and with more.
use ion_cluster.Base.{◌≡◌, refl, String, false, none, some, text_discrete}
use ion_cluster.Config.{RootConfig, endpoint}

abbrev config : String → RootConfig (Unit {0})
config addr = record {
  signal = record {
    fqdn = "n1";
    key = "";
    cert = "";
    http_addr = addr;
    grpc_addr = "";
    auth = record { enabled = false; key = ""; key_type = "" };
  };
  sfu = tt;
  coordinator = record { local = none; etcd = none };
}

-- Of an IPv6 address the port is lost.
ipv6_endpoint : endpoint (config "[::1]:7000") ≡ some "ws://n1:/ws"
unfolding endpoint text_discrete
ipv6_endpoint = refl
