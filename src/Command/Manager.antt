-- ===== src/Command/Manager.antt =====
-- `Run` and `StartControllers` of cmd/app/cloudshell-manager.go. What they start is a list of actions,
-- in order; the wait for the stop channel, and logging, are left out.
use cloudtty.Base.{ℕ, String, ◌<>◌, Bool, List, [], ◌∷◌, ◌++◌, if◌then◌else◌}
use cloudtty.Base.Dict.{Dict}
use cloudtty.Base.Int.{ℤ}
use cloudtty.Base.Result.{failed, wrapped, Result, ok, err}
use cloudtty.Resources.{Setting}
use cloudtty.WorkerPool.Keys.{worker_owner_label_key}
use cloudtty.Text.{is_empty}
use cloudtty.Command.{Options}
use cloudtty.Command.Config.{Rest, Libraries, Config, config}

-- `leaderelection.RunOrDie` with the lock of these names, for an identity.
pub record Election : Type 0 where
  pub identity : String
  pub lock : String
  pub namespace : String
  pub name : String

-- `watches_pods`: the informer of the pods that have this label, which both parts use.
pub data Action : Type 0 where
  serves_profiling : String → Action
  runs_election : Election → Action
  watches_pods : String → Action
  watches_shells : Action
  runs_pool : ℤ → ℤ → Action
  runs_controller : ℕ → String → Dict → Setting → Action

-- The operating system, the locks of client-go, and whether an election is won before the end.
pub record Process : Type 1 where
  pub Requirement : Type 0
  pub Lock : Type 0
  pub hostname : Result String
  pub uuid : String
  pub new_requirement : String → Result Requirement
  pub new_lock : Election → Rest → ℕ → Result Lock
  pub is_won : Lock → Bool

module _ (L : Libraries) (P : Process) where
  -- The goroutines of the pool and of the controller, which has one worker.
  unfoldable pub start_with : Config L → Result P.Requirement → Result (Unit {0}) × List Action
  start_with c (err e) = (err e, [])
  start_with c (ok requirement) = (
    ok tt,
    watches_pods worker_owner_label_key
        ∷ watches_shells
        ∷ runs_pool c.core_worker_limit c.max_worker_limit
        ∷ runs_controller 1 c.cloudshell_image c.node_selector c.resources
        ∷ [],
  )

  unfoldable pub start_controllers : Config L → Result (Unit {0}) × List Action
  unfolding start_with
  start_controllers c = start_with c (P.new_requirement worker_owner_label_key)

  abbrev pub election_of : Config L → String → Election
  election_of c host = record {
    identity = host <> ("_" <> P.uuid);
    lock = c.leader_election.resource_lock;
    namespace = c.leader_election.resource_namespace;
    name = c.leader_election.resource_name;
  }

  -- The callback's error is dropped.
  unfoldable pub elect : Config L → Election → Result P.Lock → Result (Unit {0}) × List Action
  elect c election (err e) = (err (wrapped "failed to create resource lock" e), [])
  elect c election (ok lock) =
      (ok tt, runs_election election ∷ (if P.is_won lock then (start_controllers c).1 else []))

  unfoldable pub elect_on : Config L → Result String → Result (Unit {0}) × List Action
  unfolding elect
  elect_on c (err e) = (err e, [])
  elect_on c (ok host) =
      let election = election_of c host in
      elect c election (P.new_lock election c.kubeconfig c.leader_election.renew_deadline)

  unfoldable pub profiling : Config L → List Action
  profiling c = if c.enable_pprof then serves_profiling c.profiling_bind_address ∷ [] else []

  unfoldable pub lead : Config L → Result (Unit {0}) × List Action
  unfolding elect_on
  lead c = if c.leader_election.leader_elect then elect_on c P.hostname else start_controllers c

  -- Profiling is served before the election.
  unfoldable pub run : Config L → Result (Unit {0}) × List Action
  unfolding lead profiling
  run c = let (r, actions) = lead c in (r, profiling c ++ actions)

  -- `RunE`, after the logging is set up.
  unfoldable pub run_command : Options → Result (Unit {0}) × List Action
  unfolding run
  run_command o = elim (config L o) [ ok c ↦ run c | err e ↦ (err e, []) ]

-- `Args`: the command takes no arguments, but empty ones. `message` is what `fmt` prints.
unfoldable pub check_args :
    (message : List String → String) → List String → List String → Result (Unit {0})
check_args message all [] = ok tt
check_args message all (arg ∷ args) =
    if is_empty arg then check_args message all args else err (failed (message all))
