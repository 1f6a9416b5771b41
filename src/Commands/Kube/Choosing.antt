-- ===== src/Commands/Kube/Choosing.antt =====
-- cmd/root.go: which node's address is chosen.
use ion_cluster.Base.{
  ◌≡◌, ◌≢◌, refl, sym, ◌∙◌, ap, subst, inl, inr, ◌⊎◌, ◌↔◌, String, Bool, true, false, Bool-cases,
  List, [], ◌∷◌, ◌++◌, All, Any, is_empty, arith, text_discrete, if◌then◌else◌,
}
use ion_cluster.Coordinator.{ok}
use ion_cluster.Config.{RootConfig}
use ion_cluster.Commands.Kube.{
  AddressType, internal_ip, external_ip, other_type, NodeAddress, KubeNode, is_internal, match_node,
  first_external, find_external, KubeApi, kube_configure_external_ip,
}

-- The node has the address as an internal one.
abbrev pub Owns : String → KubeNode → Type 0
Owns ip n = Any (λ a. (a.kind ≡ internal_ip) × (a.address ≡ ip)) n

abbrev pub LacksExternal : KubeNode → Type 0
LacksExternal n = All (λ a. a.kind ≢ external_ip) n

-- The text is the node's first external address.
pub record HasExternal (n : KubeNode) (ip : String) : Type 0 where
  pub before : KubeNode
  pub after : KubeNode
  pub place : NodeAddress
  pub parts : n ≡ before ++ place ∷ after
  pub first : LacksExternal before
  pub external : place.kind ≡ external_ip
  pub address : place.address ≡ ip

is_internal_iff :
    (ip : String) (a : NodeAddress)
    → (is_internal ip a ≡ true) ↔ ((a.kind ≡ internal_ip) × (a.address ≡ ip))
is_internal_iff ip a = ground arith

match_node-Owns : (ip : String) (n : KubeNode) → match_node ip n ≡ true → Owns ip n
match_node-Owns ip [] h = absurd (cc)
match_node-Owns ip (a ∷ n) h = elim (Bool-cases (is_internal ip a)) [
  | inl own ↦ inl ((is_internal_iff ip a).0 own)
  | inr not ↦ inr (match_node-Owns ip n (ground (arith, h, not)))
]

Owns-match_node : (ip : String) (n : KubeNode) → Owns ip n → match_node ip n ≡ true
Owns-match_node ip [] o = absurd o
Owns-match_node ip (a ∷ n) (inl own) = rw ((is_internal_iff ip a).1 own) refl
Owns-match_node ip (a ∷ n) (inr o) = ground (arith, Owns-match_node ip n o)

-- Either no address is external, or the first is found.
first_external-cases :
    (found : String) (n : KubeNode)
    → (LacksExternal n × (first_external found n ≡ found)) ⊎ HasExternal n (first_external found n)
first_external-cases found [] = inl (tt, refl)
first_external-cases found (a ∷ n) = by_kind a.kind refl (first_external-cases found n)
  where
    later :
        a.kind ≢ external_ip
        → first_external found (a ∷ n) ≡ first_external found n
        → (LacksExternal n × (first_external found n ≡ found))
          ⊎ HasExternal n (first_external found n)
        → (LacksExternal (a ∷ n) × (first_external found (a ∷ n) ≡ found))
          ⊎ HasExternal (a ∷ n) (first_external found (a ∷ n))
    later not same (inl (lacks, e)) = inl ((not, lacks), same ∙ e)
    later not same (inr h) = inr (record {
      before = a ∷ h.before;
      after = h.after;
      place = h.place;
      parts = ap (λ l. a ∷ l) h.parts;
      first = (not, h.first);
      external = h.external;
      address = h.address ∙ sym same;
    })

    by_kind :
        (k : AddressType)
        → a.kind ≡ k
        → (LacksExternal n × (first_external found n ≡ found))
          ⊎ HasExternal n (first_external found n)
        → (LacksExternal (a ∷ n) × (first_external found (a ∷ n) ≡ found))
          ⊎ HasExternal (a ∷ n) (first_external found (a ∷ n))
    by_kind internal_ip e rest = later (λ x. cc) (ground (arith, e)) rest
    by_kind other_type e rest = later (λ x. cc) (ground (arith, e)) rest
    by_kind external_ip e rest = inr (record {
      before = [];
      after = n;
      place = a;
      parts = refl;
      first = tt;
      external = e;
      address = ground (arith, e);
    })

-- The node is another one or has no external address.
abbrev pub Passes : String → KubeNode → Type 0
Passes ip n = (Owns ip n → ⊥) ⊎ LacksExternal n

-- The text is the first external address of the last of the nodes that has the internal address and an
-- external one.
pub record IsLastOf (ip : String) (nodes : List KubeNode) (found : String) : Type 0 where
  pub before : List KubeNode
  pub after : List KubeNode
  pub node : KubeNode
  pub parts : nodes ≡ before ++ node ∷ after
  pub owns : Owns ip node
  pub has : HasExternal node found
  pub passed : All (Passes ip) after

-- The address found so far after one node more.
abbrev after_node : String → String → KubeNode → String
after_node ip found n = if match_node ip n then first_external found n else found

after_node-cases :
    (ip found : String) (n : KubeNode)
    → (Passes ip n × (after_node ip found n ≡ found))
      ⊎ (Owns ip n × HasExternal n (after_node ip found n))
after_node-cases ip found n = by_match (match_node ip n) refl (first_external-cases found n)
  where
    by_match :
        (b : Bool)
        → match_node ip n ≡ b
        → (LacksExternal n × (first_external found n ≡ found))
          ⊎ HasExternal n (first_external found n)
        → (Passes ip n × (after_node ip found n ≡ found))
          ⊎ (Owns ip n × HasExternal n (after_node ip found n))
    by_match false e _ = inl (inl (λ o. ground (arith, Owns-match_node ip n o, e)), rw e refl)
    by_match true e (inl (lacks, same)) = inl (inr lacks, rw e same)
    by_match true e (inr h) = inr (match_node-Owns ip n e, rw e h)

find_external-cases :
    (ip found : String) (nodes : List KubeNode)
    → (All (Passes ip) nodes × (find_external ip found nodes ≡ found))
      ⊎ IsLastOf ip nodes (find_external ip found nodes)
find_external-cases ip found [] = inl (tt, refl)
find_external-cases ip found (n ∷ nodes) =
    elim (find_external-cases ip (after_node ip found n) nodes) [
      | inr h ↦ inr (record {
        before = n ∷ h.before;
        after = h.after;
        node = h.node;
        parts = ap (λ l. n ∷ l) h.parts;
        owns = h.owns;
        has = h.has;
        passed = h.passed;
      })
      | inl (rest, same) ↦ elim (after_node-cases ip found n) [
        | inl (passes, kept) ↦ inl ((passes, rest), same ∙ kept)
        | inr (owns, has) ↦ inr (record {
          before = [];
          after = nodes;
          node = n;
          parts = refl;
          owns = owns;
          has = subst (HasExternal n) (sym same) has;
          passed = rest;
        })
      ]
    ]

-- In a cluster for which a client can be built, the configuration gets as its one NAT address the
-- first external address of the last node that has the configured FQDN as an internal address and
-- has an external one; where there is no such node, or that address is the empty text, nothing is
-- changed.
pub kube_configure_external_ip-chooses :
    {F : Type 0} (K : KubeApi F) (conf : RootConfig F) (cfg : K.Config) (clientset : K.Clientset)
    → K.in_cluster_config ≡ ok cfg
    → K.new_for_config cfg ≡ ok clientset
    → let nodes : List KubeNode = K.list_nodes clientset in
      let conf' : RootConfig F = kube_configure_external_ip K conf in
      (All (Passes conf.signal.fqdn) nodes × (conf' ≡ conf))
      ⊎ ((ip : String) × IsLastOf conf.signal.fqdn nodes ip
          × (conf' ≡ (
              if is_empty ip
              then conf
              else record conf { sfu = K.set_nat_1to1_ips (ip ∷ []) conf.sfu })))
unfolding kube_configure_external_ip text_discrete
kube_configure_external_ip-chooses K conf cfg clientset e e' =
    elim (find_external-cases conf.signal.fqdn "" (K.list_nodes clientset)) [
      | inl (none_, same) ↦ inl (none_, rw (e, kube_configure_external_ip, e', same) refl)
      | inr last ↦ inr (_, last, rw (e, kube_configure_external_ip, e') refl)
    ]
