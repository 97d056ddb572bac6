-- ===== src/Tests/Demo.antt =====
-- A small cluster, in which `RetryOnConflict` runs its body at most twice.
use cloudtty.Base.{
  ◌≡◌, ◌≢◌, refl, ℕ, suc, zero, String, ◌<>◌, Bool, true, false, List, [], ◌∷◌, ◌++◌, Option, none,
  some, contains, string_eq, if◌then◌else◌, ◌==◌, arith, eq_iff, ◌&&◌,
}
use cloudtty.Base.Result.{not_found, conflict, failed, Result, ok, err}
use cloudtty.Objects.{Pod, CloudShell, empty_pod}
use cloudtty.Manifests.Supplied.{is_supplied}
use cloudtty.Cluster.Monad.{Request}
use cloudtty.WorkerPool.Lending.{Pool}
use cloudtty.Cluster.{Env, Client, RetryIsLawful, FinalizersAreLawful}

-- `conflicts` updates of pods fail before one succeeds.
pub record Demo : Type 0 where
  pub time : ℕ
  pub conflicts : ℕ
  pub pod : Option Pod
  pub shell : Option CloudShell

abbrev pub or_missing : {A : Type 0} → Option A → Result A
or_missing none = err not_found
or_missing (some a) = ok a

-- An object that the cache no longer holds is written to in vain.
abbrev pub rewritten : CloudShell → Option CloudShell → Option CloudShell
rewritten shell none = none
rewritten shell (some _) = some shell

abbrev update_pod : ℕ → Pod → Demo → Result Pod × Demo
update_pod zero pod s = (ok pod, record s { pod = some pod })
update_pod (suc n) pod s = (err conflict, record s { conflicts = n })

abbrev update_shell : ℕ → Demo → Result (Unit {0}) × Demo
update_shell zero s = (ok tt, s)
update_shell (suc n) s = (err conflict, record s { conflicts = n })

abbrev plain : {O : Type 0} → Client Demo O
plain = record {
  get = λ namespace name s. (err not_found, s);
  create = λ o s. (ok o, s);
  update = λ o s. (ok o, s);
  delete = λ o s. (ok tt, s);
}

abbrev again :
    {T : Type 0} → (T → Result (Unit {0}) × T) → Result (Unit {0}) × T → Result (Unit {0}) × T
again body (err conflict, t) = body t
again body (err e, t) = (err e, t)
again body (ok _, t) = (ok tt, t)

again-done :
    {T : Type 0} (body : T → Result (Unit {0}) × T) (r : Result (Unit {0}) × T)
    → r.0 ≢ err conflict
    → again body r ≡ r
again-done body (err conflict, t) h = absurd (h refl)
again-done body (err not_found, t) h = refl
again-done body (err _, t) h = refl
again-done body (ok _, t) h = refl

again-conflict :
    {T : Type 0} (body : T → Result (Unit {0}) × T) (r : Result (Unit {0}) × T)
    → r.0 ≡ err conflict
    → again body r ≡ body r.1
again-conflict body (err conflict, t) h = refl
again-conflict body (err _, t) h = cc
again-conflict body (ok _, t) h = cc

again-last :
    {T : Type 0} (body : T → Result (Unit {0}) × T) (Q : T → Type 0)
    (R : Result (Unit {0}) × T → Type 0)
    → ((t : T) → Q t → R (body t) × ((body t).0 ≡ err conflict → Q (body t).1))
    → (r : Result (Unit {0}) × T) → R r × (r.0 ≡ err conflict → Q r.1)
    → R (again body r)
again-last body Q R step (err conflict, t) (p, q) = (step t (q refl)).0
again-last body Q R step (err _, t) (p, q) = p
again-last body Q R step (ok _, t) (p, q) = p

abbrev delete_all : String → List String → List String
delete_all f [] = []
delete_all f (g ∷ gs) = let rest = delete_all f gs in if g == f then rest else g ∷ rest

-- The execution of a template fails if a field is missing.
abbrev render : Bool → Result String
render true = ok ""
render false = err (failed "missing field")

abbrev pub demo : Env
demo = record {
  State = Demo;
  pods = record plain { update = λ pod s. update_pod s.conflicts pod s };
  services = plain;
  secrets = record plain {
    get = λ namespace name s. (
      ok (record {
        name = name;
        generate_name = "";
        namespace = namespace;
        contents = ("config", "kubeconfig") ∷ [];
      }),
      s,
    );
  };
  ingresses = record plain {
    get = λ namespace name s. (
      ok (record {
        name = name;
        namespace = namespace;
        labels = none;
        annotations = none;
        rules = some [] ∷ [];
      }),
      s,
    );
  };
  virtual_services = plain;
  shells = record plain { get = λ namespace name s. (or_missing s.shell, s) };
  update_status = λ shell s. update_shell s.conflicts s;
  lister_pod = λ namespace name s. (or_missing s.pod, s);
  lister_pods = λ namespace label value s. (ok [], s);
  lister_shell = λ namespace name s. (or_missing s.shell, s);
  write_pod = λ pod s. record s { pod = some pod };
  write_shell = λ shell s. record s { shell = rewritten shell s.shell };
  list_nodes = λ label s. (ok [], s);
  now = λ s. (s.time, s);
  random = λ s. ("abcdefghij", s);
  exec = λ namespace pod command s. (ok tt, s);
  retry = λ b T body t. again body (body t);
  add_finalizer = λ fs f. if contains fs f then (fs, false) else (fs ++ f ∷ [], true);
  remove_finalizer = λ fs f. (delete_all f fs, contains fs f);
  set_controller_reference = λ owner service. ok service;
  meta_namespace_key = λ namespace name. namespace <> ("/" <> name);
  split_meta_namespace_key = λ key. ok ("default", key);
  Parsed = String;
  template_parse = λ template. ok template;
  template_execute = λ parsed fields. render (is_supplied parsed fields);
  decode_pod = λ text. ok empty_pod;
  decode_service = λ text. err (failed text);
  decode_ingress = λ text. err (failed text);
  decode_virtual_service = λ text. err (failed text);
  json_marshal = λ m. ok "{}";
  json_unmarshal = λ text. ok [];
  getenv = λ name. "";
  read_file = λ name. err (failed name);
  list_config_maps = λ namespace label s. (ok [], s);
  set_secret_reference = λ owner secret. ok secret;
  encode_base64 = λ s. s;
  join_host_port = λ host port. host <> (":" <> port);
  md5_hex = λ s. "0123456789abcdef0123456789abcdef";
  quote = λ s. s;
  trim_space = λ s. s;
  same_spec = λ a b. a.image == b.image && a.command_action == b.command_action;
  is_dns1123_subdomain = λ s. [];
  sort = λ less pods. pods;
}

pub demo-RetryIsLawful : RetryIsLawful demo
demo-RetryIsLawful = record {
  retry-last = λ b T body Q R step t q. again-last body Q R step (body t) (step t q);
  retry-done = λ b T body t h. again-done body (body t) h;
  retry-again = λ b T body t h k. again-conflict body (body t) h;
}

delete_all-contains :
    (fs : List String) (f g : String)
    → contains (delete_all f fs) g ≡ (if f == g then false else contains fs g)
delete_all-contains [] f g = ground arith
delete_all-contains (x ∷ xs) f g =
    ground (arith, eq_iff f g, eq_iff x f, eq_iff x g, delete_all-contains xs f g)

concat-contains :
    (fs : List String) (f g : String)
    → contains (fs ++ f ∷ []) g ≡ (if f == g then true else contains fs g)
concat-contains [] f g = ground arith
concat-contains (x ∷ xs) f g = ground (arith, concat-contains xs f g)

pub demo-FinalizersAreLawful : FinalizersAreLawful demo
demo-FinalizersAreLawful = record {
  add-contained = λ fs f h. ground (arith, h);
  contains-add = λ fs f g. ground (arith, concat-contains fs f g, eq_iff f g);
  contains-remove = λ fs f g. delete_all-contains fs f g;
  remove-changed = λ fs f. refl;
}

abbrev pub ready_pod : Pod
ready_pod = record empty_pod {
  name = "w1";
  namespace = "default";
  labels =
      some (("worker.cloudtty.io/binding-count", "4") ∷ ("worker.cloudtty.io/request", "old") ∷ []);
  containers = record { name = "web-tty"; image = "img" } ∷ [];
  conditions = record { kind = "Ready"; status = "True"; last_transition_time = some 5 } ∷ [];
}

abbrev pub unready_pod : Pod
unready_pod = record ready_pod {
  conditions = record { kind = "Ready"; status = "False"; last_transition_time = some 5 } ∷ [];
}

abbrev pub request : Request
request = record {
  cloudshell = "shell";
  namespace = "default";
  image = "img";
  node_selector = "{}";
  resources = none;
  cloudshell_queue = 0;
}

abbrev pub pool : Pool
pool = record { core_worker_limit = 1; max_worker_limit = 4; queue = 1 }

-- The lister gives the ready pod, and so many updates of pods will conflict.
abbrev pub cluster : ℕ → Demo
cluster n = record { time = 100; conflicts = n; pod = some ready_pod; shell = none }
