-- ===== src/Controller/Nodes/Choice.antt =====
-- Which address `GetMasterNodeIP` chooses.
use cloudtty.Base.{
  String, Bool, true, false, List, [], ◌∷◌, ◌++◌, Option, none, some, if◌then◌else◌, ◌==◌, ◌≡◌,
  refl, arith, ap, ◌∙◌, sym, eq_iff,
}
use cloudtty.Objects.{Node, NodeAddress, Condition}
use cloudtty.Controller.Nodes.{
  Search, returned, internal, scan_addresses, scan_conditions, scan_nodes, is_ready_condition,
  and_then, chosen, address_of,
}

-- The addresses of the nodes in order, those of a node once for each condition that says it is
-- ready.
abbrev pub repeated : List NodeAddress → List Condition → List NodeAddress
repeated addrs [] = []
repeated addrs (c ∷ cs) =
    let rest = repeated addrs cs in if is_ready_condition c then addrs ++ rest else rest

abbrev pub ready_addresses : List Node → List NodeAddress
ready_addresses [] = []
ready_addresses (n ∷ ns) = repeated n.addresses n.conditions ++ ready_addresses ns

abbrev pub first_external : List NodeAddress → Option String
first_external [] = none
first_external (a ∷ addrs) = if a.kind == "ExternalIP" then some a.address else first_external addrs

abbrev pub last_internal : String → List NodeAddress → String
last_internal ip [] = ip
last_internal ip (a ∷ addrs) =
    let updated = last_internal a.address addrs in
    let next = last_internal ip addrs in if a.kind == "InternalIP" then updated else next

scan-append :
    (ip : String) (xs ys : List NodeAddress)
    → scan_addresses ip (xs ++ ys)
      ≡ and_then (scan_addresses ip xs) (λ next. scan_addresses next ys)
unfolding scan_addresses
scan-append ip [] ys = refl
scan-append ip (a ∷ xs) ys = ground (arith, scan-append ip xs ys, scan-append a.address xs ys)

and_then_assoc :
    (s : Search) (f g : String → Search)
    → and_then (and_then s f) g ≡ and_then s (λ ip. and_then (f ip) g)
and_then_assoc (returned ip) f g = refl
and_then_assoc (internal ip) f g = refl

and_then_ext :
    (s : Search) (f g : String → Search)
    → ((ip : String) → f ip ≡ g ip)
    → and_then s f ≡ and_then s g
and_then_ext (returned ip) f g h = refl
and_then_ext (internal ip) f g h = h ip

scan_conditions-repeated :
    (addrs : List NodeAddress) (ip : String) (cs : List Condition)
    → scan_conditions addrs ip cs ≡ scan_addresses ip (repeated addrs cs)
unfolding scan_conditions scan_addresses
scan_conditions-repeated addrs ip [] = refl
scan_conditions-repeated addrs ip (c ∷ cs) =
    with_test (λ next. scan_conditions-repeated addrs next cs) (is_ready_condition c)
  where
    with_test :
        ((next : String) → scan_conditions addrs next cs ≡ scan_addresses next (repeated addrs cs))
        → (b : Bool)
        → (if b
            then and_then (scan_addresses ip addrs) (λ next. scan_conditions addrs next cs)
            else scan_conditions addrs ip cs)
          ≡ scan_addresses ip (if b then addrs ++ repeated addrs cs else repeated addrs cs)
    with_test again true =
        and_then_ext (scan_addresses ip addrs) _ _ again
        ∙ sym (scan-append ip addrs (repeated addrs cs))
    with_test again false = again ip

scan_nodes-ready :
    (ip : String) (ns : List Node) → scan_nodes ip ns ≡ scan_addresses ip (ready_addresses ns)
unfolding scan_nodes scan_addresses
scan_nodes-ready ip [] = refl
scan_nodes-ready ip (n ∷ ns) =
    ap (λ s. and_then s (λ next. scan_nodes next ns))
      (scan_conditions-repeated n.addresses ip n.conditions)
    ∙ and_then_ext (scan_addresses ip (repeated n.addresses n.conditions)) _ _
        (λ next. scan_nodes-ready next ns)
    ∙ sym (scan-append ip (repeated n.addresses n.conditions) (ready_addresses ns))

abbrev pub choice : Option String → String → Search
choice (some ip) _ = returned ip
choice none ip = internal ip

scan_addresses-choice :
    (ip : String) (xs : List NodeAddress)
    → scan_addresses ip xs ≡ choice (first_external xs) (last_internal ip xs)
unfolding scan_addresses
scan_addresses-choice ip [] = refl
scan_addresses-choice ip (a ∷ xs) = ground (
  arith,
  scan_addresses-choice ip xs,
  scan_addresses-choice a.address xs,
  eq_iff a.kind "ExternalIP",
  eq_iff a.kind "InternalIP",
)

-- From a list with a node, of the addresses of the ready nodes in order, the first external one is
-- chosen; without one, the last internal one; without that, or if it is empty, there is an error.
pub address_of_lem :
    (n : Node) (ns : List Node)
    → address_of (n ∷ ns)
      ≡ chosen (
          choice
            (first_external (ready_addresses (n ∷ ns)))
            (last_internal "" (ready_addresses (n ∷ ns))))
unfolding address_of
address_of_lem n ns =
    ap chosen (scan_nodes-ready "" (n ∷ ns) ∙ scan_addresses-choice "" (ready_addresses (n ∷ ns)))
