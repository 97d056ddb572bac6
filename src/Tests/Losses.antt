-- ===== src/Tests/Losses.antt =====
-- A cluster that refuses every update of a shell.
use cloudtty.Base.{
  ◌≡◌, refl, ap, subst, false, [], ◌∷◌, Option, none, some, contains, string_eq, arith, eq_iff,
}
use cloudtty.Base.Result.{conflict, ok, err}
use cloudtty.Objects.{Pod, CloudShell}
use cloudtty.Queue
use cloudtty.Queue.{new_queue}
use cloudtty.Queue.Invariant.{Inv}
use cloudtty.Cluster.{Env, RetryIsLawful, FinalizersAreLawful}
use cloudtty.Controller.Defaults.{ensured, ensure_cloud_shell}
use cloudtty.Cluster.Monad.{World, ◌>>=◌, string_item, request_item}
use cloudtty.WorkerPool.Keys.{worker_key, split_worker_key}
use cloudtty.WorkerPool.Matching.{names_of, match_worker_for, find_worker}
use cloudtty.WorkerPool.Lending.{answer, bind_body, bind_worker, lend, borrow}
use cloudtty.WorkerPool.Lending.Storing.{IsStored}
use cloudtty.Controller.Defaults.Failing.{ShellCacheIsShared, ensure_cloud_shell-failed}
use cloudtty.Controller.Labels.{pod_label, truncate_and_hash_if_exceed}
use cloudtty.Controller.Sync.{sync_cloud_shell}
use cloudtty.Controller.Sync.Waiting.{waits}
use cloudtty.Controller.Sync.Binding.{labelled, IsOwned, bind-failed}
use cloudtty.Tests.Demo.{
  Demo, demo, demo-RetryIsLawful, demo-FinalizersAreLawful, or_missing, rewritten, ready_pod,
  request,
}
use cloudtty.Tests.Shells.{shell, controller}

abbrev pub refusing : Env
refusing = record demo { shells = record (demo.shells) { update = λ shell s. (err conflict, s) } }

pub refusing-RetryIsLawful : RetryIsLawful refusing
refusing-RetryIsLawful = record {
  retry-last = demo-RetryIsLawful.retry-last;
  retry-done = demo-RetryIsLawful.retry-done;
  retry-again = demo-RetryIsLawful.retry-again;
}

rewritten_lem :
    (older shell : CloudShell) (found : Option CloudShell)
    → or_missing found ≡ ok older
    → or_missing (rewritten shell found) ≡ ok shell
rewritten_lem older shell none h = cc
rewritten_lem older shell (some _) h = refl

refusing-ShellCacheIsShared : ShellCacheIsShared refusing
refusing-ShellCacheIsShared = record {
  reads-write = λ older shell s h. rewritten_lem older shell s.shell h;
  reads-failed = λ shell sent e s s' h k.
      subst (λ (t : Demo). or_missing t.shell ≡ ok shell) (ap (λ out. out.1) k) h;
}

abbrev start : World refusing
start = record {
  worker_queue = record { queue = "default//img//w1" ∷ []; dirty = "default//img//w1" ∷ [] };
  request_queue = record { queue = []; dirty = [] };
  events = [];
  state = record { time = 100; conflicts = 0; pod = some ready_pod; shell = some shell };
}

start-Inv : Inv start.worker_queue
start-Inv = record { distinct = (refl, tt); distinct_dirty = (refl, tt); agrees = λ a. refl }

abbrev bound : Pod
bound = bind_worker refusing request ready_pod

abbrev lent : World refusing
lent = record start {
  worker_queue = record { queue = []; dirty = [] };
  state = record (start.state) { pod = some bound };
}

borrowed : borrow refusing request start ≡ (ok bound, lent)
unfolding borrow find_worker ◌>>=◌ answer match_worker_for Queue.all names_of split_worker_key lend
    bind_body new_queue Queue.remove worker_key bind_worker
borrowed = refl

-- The cache has the label.
abbrev marked : World refusing
marked = record lent {
  state = record (lent.state) { shell = some (labelled refusing controller shell bound) };
}

bind-failed_example :
    (sync_cloud_shell refusing controller shell start ≡ (err conflict, marked))
    × (contains lent.worker_queue.queue (worker_key bound) ≡ false)
    × IsStored refusing request ready_pod bound lent.state
    × IsOwned refusing controller shell.name bound
    × (pod_label (labelled refusing controller shell bound)
        ≡ truncate_and_hash_if_exceed refusing bound.name)
    × (or_missing (marked.state).shell ≡ ok (labelled refusing controller shell bound))
    × (sync_cloud_shell refusing controller shell lent
        ≡ (ok none, waits refusing controller lent request))
unfolding pod_label Queue.all find_worker
bind-failed_example =
    bind-failed refusing controller refusing-RetryIsLawful refusing-ShellCacheIsShared shell shell
      ready_pod bound "{}" conflict start lent marked.state lent.state start-Inv refl refl refl refl
      tt borrowed refl refl refl

refusing-FinalizersAreLawful : FinalizersAreLawful refusing
refusing-FinalizersAreLawful = record {
  add-contained = demo-FinalizersAreLawful.add-contained;
  contains-add = demo-FinalizersAreLawful.contains-add;
  contains-remove = demo-FinalizersAreLawful.contains-remove;
  remove-changed = demo-FinalizersAreLawful.remove-changed;
}

abbrev filled : World refusing
filled = record start {
  state = record (start.state) { shell = some (ensured refusing "img" shell) };
}

ensure_cloud_shell-failed_example :
    (ensure_cloud_shell refusing "img" shell start ≡ (err conflict, filled))
    × (or_missing (filled.state).shell ≡ ok (ensured refusing "img" shell))
    × (ensure_cloud_shell refusing "img" (ensured refusing "img" shell) filled
        ≡ (ok (ensured refusing "img" shell), filled))
ensure_cloud_shell-failed_example =
    ensure_cloud_shell-failed refusing refusing-ShellCacheIsShared refusing-FinalizersAreLawful
      (λ s. ground (arith, eq_iff s.image s.image, eq_iff s.command_action s.command_action)) "img"
      shell shell conflict start filled filled.state refl refl refl
