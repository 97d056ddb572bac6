-- ===== src/Controller/Nodes.antt =====
-- `GetMasterNodeIP` of pkg/controllers/cloudshell_controller.go.
pub mod Choice
use cloudtty.Base.{String, Bool, ◌&&◌, List, [], ◌∷◌, if◌then◌else◌, ◌==◌}
use cloudtty.Base.Result.{failed, Result, ok, err}
use cloudtty.Objects.{Node, NodeAddress, Condition}
use cloudtty.Text.{is_empty}
use cloudtty.Cluster.{Env}
use cloudtty.Cluster.Monad.{M, ◌>>=◌, pure, call, from_result}

-- The loops either have returned an address, or go on with `internalIP`.
pub data Search : Type 0 where
  returned internal : String → Search

unfoldable pub scan_addresses : String → List NodeAddress → Search
scan_addresses ip [] = internal ip
scan_addresses ip (a ∷ addrs) =
    let next = scan_addresses ip addrs in
    let updated = scan_addresses a.address addrs in
    if a.kind == "ExternalIP"
    then returned a.address
    else if a.kind == "InternalIP"
    then updated
    else next

abbrev pub is_ready_condition : Condition → Bool
is_ready_condition c = c.kind == "Ready" && c.status == "True"

-- Go on, unless an address has been returned.
abbrev pub and_then : Search → (String → Search) → Search
and_then (returned ip) f = returned ip
and_then (internal ip) f = f ip

unfoldable pub scan_conditions : List NodeAddress → String → List Condition → Search
scan_conditions addrs ip [] = internal ip
scan_conditions addrs ip (c ∷ cs) =
    if is_ready_condition c
    then and_then (scan_addresses ip addrs) (λ next. scan_conditions addrs next cs)
    else scan_conditions addrs ip cs

unfoldable pub scan_nodes : String → List Node → Search
scan_nodes ip [] = internal ip
scan_nodes ip (n ∷ ns) =
    and_then (scan_conditions n.addresses ip n.conditions) (λ next. scan_nodes next ns)

unfoldable pub chosen : Search → Result String
chosen (returned ip) = ok ip
chosen (internal ip) = if is_empty ip then err (failed "no available node IP was found") else ok ip

unfoldable pub address_of : List Node → Result String
address_of [] = err (failed "no nodes found with the master node labels")
address_of (n ∷ ns) = chosen (scan_nodes "" (n ∷ ns))

module _ (E : Env) where
  -- The second label is asked for if the first gives no node.
  unfoldable pub or_control_plane : List Node → M E (List Node)
  or_control_plane [] = call (E.list_nodes "node-role.kubernetes.io/control-plane")
  or_control_plane (n ∷ ns) = pure (n ∷ ns)

  unfoldable pub get_master_node_ip : M E String
  get_master_node_ip = do
    masters ← call (E.list_nodes "node-role.kubernetes.io/master")
    nodes ← or_control_plane masters
    from_result (address_of nodes)
