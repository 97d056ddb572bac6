-- ===== src/Command/Starting.antt =====
-- What the command starts from its options.
use cloudtty.Base.{
  String, Bool, true, false, List, [], ◌∷◌, ◌++◌, if◌then◌else◌, ◌≡◌, refl, ◌∙◌, ◌↔◌, ◌⊎◌, arith,
}
use cloudtty.Base.Int.{pos, ltb_ℤ}
use cloudtty.Base.Result.{Result, ok, err}
use cloudtty.WorkerPool.Keys.{worker_owner_label_key}
use cloudtty.Command.{Options, Invalid, validate, validate_iff}
use cloudtty.Command.Config.{
  Rest, Libraries, Config, and_then, rest_config, with_connection, with_clients, config_of, config,
}
use cloudtty.Command.Manager.{
  Action, serves_profiling, watches_pods, watches_shells, runs_pool, runs_controller, Process,
  start_with, start_controllers, elect, elect_on, election_of, lead, run, run_command, profiling,
}

module _ (L : Libraries) where
  -- The configuration forwards what the options say.
  record Forwards (o : Options) (c : Config L) : Type 0 where
    pub core_limit : c.core_worker_limit ≡ o.core_worker_limit
    pub max_limit : c.max_worker_limit ≡ o.max_worker_limit
    pub image : c.cloudshell_image ≡ o.cloudshell_image
    pub selector : c.node_selector ≡ o.node_selector
    pub setting : c.resources ≡ o.resources
    pub election : c.leader_election ≡ o.leader_election
    pub pprof : c.enable_pprof ≡ o.enable_pprof
    pub address : c.profiling_bind_address ≡ o.profiling_bind_address

  pub and_then-ok :
      {A B : Type 0} (r : Result A) (f : A → Result B) (b : B)
      → and_then L r f ≡ ok b
      → (a : A) × (r ≡ ok a) × (f a ≡ ok b)
  unfolding and_then
  and_then-ok (ok a) f b h = (a, refl, h)
  and_then-ok (err e) f b h = cc

  with_clients-Forwards :
      (o : Options) (r : Rest) (c : Config L) → with_clients L o r ≡ ok c → Forwards o c
  unfolding with_clients
  with_clients-Forwards o r c h =
      let (k, _, h1) = and_then-ok (L.new_kube_client r) _ c h in
      let (m, _, h2) = and_then-ok (L.new_runtime_client r) _ c h1 in
      let (s, _, h3) = and_then-ok (L.new_cloudshell_client r) _ c h2 in ground arith

  config_of-ok :
      (es : List Invalid) (o : Options) (c : Config L)
      → config_of L es o ≡ ok c
      → (es ≡ []) × Forwards o c
  unfolding config_of
  config_of-ok (e ∷ es) o c h = cc
  config_of-ok [] o c h =
      let (k, _, h1) = and_then-ok (rest_config L o) _ c h in
      (refl, with_clients-Forwards o (with_connection L o k) c h1)

  config-ok :
      (o : Options) (c : Config L)
      → config L o ≡ ok c
      → (validate L.split_host_port o ≡ []) × Forwards o c
  unfolding config
  config-ok o c h = config_of-ok (validate L.split_host_port o) o c h

  module _ (P : Process) where
    abbrev pub started_by : Options → List Action
    started_by o =
        (if o.enable_pprof then serves_profiling o.profiling_bind_address ∷ [] else [])
        ++ watches_pods worker_owner_label_key
          ∷ watches_shells
          ∷ runs_pool o.core_worker_limit o.max_worker_limit
          ∷ runs_controller 1 o.cloudshell_image o.node_selector o.resources
          ∷ []

    run-alone :
        (o : Options) (c : Config L) (q : P.Requirement)
        → Forwards o c
        → P.new_requirement worker_owner_label_key ≡ ok q
        → o.leader_election.leader_elect ≡ false
        → run L P c ≡ (ok tt, started_by o)
    unfolding run profiling lead start_controllers start_with
    run-alone o c q f e h =
        rw
          (
            f.election, h, e, f.core_limit, f.max_limit, f.image, f.selector, f.setting, f.pprof,
            f.address,
          )
          refl

    run_command-config :
        (o : Options) (c : Config L) → config L o ≡ ok c → run_command L P o ≡ run L P c
    unfolding run_command
    run_command-config o c h = rw (h, run_command) refl

    -- If a configuration is made from the options, both limits are at least 0, and without leader
    -- election the command runs, in this order, the profiling server if it is switched on, the
    -- informers, the pool with the limits of the options, and the controller with their image, node
    -- selector and resources. The label requirement is assumed to be accepted.
    pub run_command_starts :
        (o : Options) (c : Config L) (q : P.Requirement)
        → config L o ≡ ok c
        → P.new_requirement worker_owner_label_key ≡ ok q
        → o.leader_election.leader_elect ≡ false
        → (ltb_ℤ o.core_worker_limit (pos 0) ≡ false)
          × (ltb_ℤ o.max_worker_limit (pos 0) ≡ false)
          × (run_command L P o ≡ (ok tt, started_by o))
    run_command_starts o c q h e alone =
        let (valid, forwards) = config-ok o c h in
        let (core, max, _) = (validate_iff L.split_host_port o).0 valid in
        (core, max, run_command-config o c h ∙ run-alone o c q forwards e alone)

    abbrev pub has_pool : List Action → Bool
    has_pool [] = false
    has_pool (runs_pool _ _ ∷ actions) = true
    has_pool (_ ∷ actions) = has_pool actions

    -- The election is won.
    abbrev pub IsElected : Config L → Type 0
    IsElected c =
        (host : String) × (lock : P.Lock) × (P.hostname ≡ ok host)
        × (P.new_lock (election_of L P c host) c.kubeconfig c.leader_election.renew_deadline
            ≡ ok lock)
        × (P.is_won lock ≡ true)

    -- The pool is run exactly if the label requirement is accepted and either there is no leader
    -- election, or the host has a name, the lock can be made and the election is won.
    pub run_pool_iff :
        (c : Config L)
        → (has_pool (run L P c).1 ≡ true) ↔ (
            ((q : P.Requirement) × (P.new_requirement worker_owner_label_key ≡ ok q))
            × ((c.leader_election.leader_elect ≡ false)
                ⊎ ((c.leader_election.leader_elect ≡ true) × IsElected c)))
    unfolding run profiling lead start_controllers start_with elect_on elect
    run_pool_iff c = ground arith
