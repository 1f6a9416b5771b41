-- ===== src/Commands/Kube.antt =====
-- cmd/root.go: the external address of the Kubernetes node that the program runs on.
pub mod Choosing
use ion_cluster.Base.{
  ◌≡◌, ◌≢◌, refl, sym, ◌∙◌, ap, subst, inl, inr, ◌⊎◌, ◌↔◌, String, Bool, true, false, Bool-cases,
  List, [], ◌∷◌, ◌++◌, All, Any, is_empty, arith, ite, text_discrete, if◌then◌else◌,
}
use ion_cluster.Coordinator.{Result, ok, err}
use ion_cluster.Config.{RootConfig}

-- `v1.NodeAddress` with its type.
pub data AddressType : Type 0 where
  internal_ip external_ip other_type : AddressType

pub record NodeAddress : Type 0 where
  pub kind : AddressType
  pub address : String

-- A node of the cluster by its `Status.Addresses`.
abbrev pub KubeNode : Type 0
KubeNode = List NodeAddress

abbrev pub is_internal : String → NodeAddress → Bool
is_internal ip a = elim a.kind [
  | internal_ip ↦ ite (text_discrete a.address ip) true false
  | external_ip ↦ false
  | other_type ↦ false
]

-- The first loop over the addresses, up to its `break`.
abbrev pub match_node : String → KubeNode → Bool
match_node ip [] = false
match_node ip (a ∷ n) = let rest = match_node ip n in if is_internal ip a then true else rest

-- The second loop.
abbrev pub first_external : String → KubeNode → String
first_external found [] = found
first_external found (a ∷ n) =
    let rest = first_external found n in
    elim a.kind [ internal_ip ↦ rest | external_ip ↦ a.address | other_type ↦ rest ]

-- The loop over the nodes, with the address found so far.
abbrev pub find_external : String → String → List KubeNode → String
find_external ip found [] = found
find_external ip found (n ∷ nodes) =
    find_external ip (if match_node ip n then first_external found n else found) nodes

-- What the function takes from packages: the cluster's configuration, a client for it and the nodes
-- that the client lists (its error is dropped); and the place of `NAT1To1IPs` in the SFU's configuration.
pub record KubeApi (F : Type 0) : Type 1 where
  pub Config : Type 0
  pub Clientset : Type 0
  pub in_cluster_config : Result Config
  pub new_for_config : Config → Result Clientset
  pub list_nodes : Clientset → List KubeNode
  pub set_nat_1to1_ips : List String → F → F

-- `kubeConfigureExternalIP`
unfoldable pub kube_configure_external_ip : {F : Type 0} → KubeApi F → RootConfig F → RootConfig F
kube_configure_external_ip K conf = elim K.in_cluster_config [
  | err _ ↦ conf
  | ok cfg ↦ elim (K.new_for_config cfg) [
    | err _ ↦ conf
    | ok clientset ↦
        let external : String = find_external conf.signal.fqdn "" (K.list_nodes clientset) in
        if is_empty external
        then conf
        else record conf { sfu = K.set_nat_1to1_ips (external ∷ []) conf.sfu }
  ]
]
