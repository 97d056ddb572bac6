-- ===== src/Controller/Sync/Waiting.antt =====
-- A shell for which there is no worker waits.
use cloudtty.Base.{String, true, ◌∷◌, none, ◌≡◌, refl, ap}
use cloudtty.Base.Result.{ok}
use cloudtty.Objects.{CloudShell}
use cloudtty.Text.{is_empty}
use cloudtty.Queue
use cloudtty.Cluster.{Env}
use cloudtty.Cluster.Monad.{Request, World, ◌>>=◌, match_request_signal, string_item, request_item}
use cloudtty.WorkerPool.Creation.{map_to_json_string}
use cloudtty.WorkerPool.Matching.{find_worker}
use cloudtty.WorkerPool.Lending.Borrowing.{borrow-no_worker}
use cloudtty.Controller.Labels.{pod_label}
use cloudtty.Controller.Sync.{
  Controller, requeue_of, next_requeue_time_duration, get_binding_worker_for, drop_unready, bind,
  ensure_worker, start, serve, sync_cloud_shell,
}

module _ (E : Env) (c : Controller) where
  -- The request that `syncCloudShell` makes for a shell.
  abbrev pub request_of : CloudShell → String → Request
  request_of shell selector = record {
    cloudshell = shell.name;
    namespace = shell.namespace;
    image = shell.spec.image;
    node_selector = selector;
    resources = c.resources;
    cloudshell_queue = c.queue;
  }

  abbrev pub waits : World E → Request → World E
  waits w req = record w {
    request_queue = Queue.add w.request_queue req;
    events = match_request_signal ∷ w.events;
  }

  pub no_requeue :
      (shell : CloudShell) (w : World E)
      → shell.spec.ttl_seconds_after_started ≡ none
      → next_requeue_time_duration E shell w ≡ (ok none, w)
  unfolding next_requeue_time_duration requeue_of ◌>>=◌
  no_requeue shell w h = ap (λ ttl. requeue_of E shell ttl w) h

  pub not_bound :
      (shell : CloudShell) (w : World E)
      → is_empty (pod_label shell) ≡ true
      → get_binding_worker_for E shell w ≡ (ok none, w)
  unfolding get_binding_worker_for ◌>>=◌
  not_bound shell w h = rw h refl

  -- A shell that is not bound and for which no worker fits waits: its request joins the
  -- request queue, the matching goroutine is signalled, the reconcile succeeds without a requeue, and
  -- nothing else changes. The shell is assumed to have no time to live, and the node selector to be
  -- printable.
  pub sync_cloud_shell-waits :
      (shell : CloudShell) (selector : String) (w : World E)
      → shell.spec.ttl_seconds_after_started ≡ none
      → is_empty (pod_label shell) ≡ true
      → E.json_marshal c.node_selector ≡ ok selector
      → is_empty (find_worker (Queue.all w.worker_queue) (request_of shell selector)) ≡ true
      → sync_cloud_shell E c shell w ≡ (ok none, waits w (request_of shell selector))
  unfolding sync_cloud_shell serve drop_unready ensure_worker bind start map_to_json_string ◌>>=◌
  sync_cloud_shell-waits shell selector w no_ttl unbound printed nobody =
      rw
        (
          no_requeue shell w no_ttl,
          not_bound shell w unbound,
          printed,
          borrow-no_worker E (request_of shell selector) w nobody,
        )
        refl
