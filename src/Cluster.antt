-- ===== src/Cluster.antt =====
-- What the operator calls and does not implement: the API server, the informers' caches, the clock,
-- the work queues, and the helpers of Kubernetes' libraries. An `Env` holds these operations over a
-- state of their own, and `RetryIsLawful` and `FinalizersAreLawful` state what the proofs rely on.
pub mod Monad
use cloudtty.Base.{
  ◌≡◌, ◌≢◌, ℕ, String, Bool, true, false, List, Option, contains, string_eq, if◌then◌else◌, ◌==◌,
}
use cloudtty.Base.Dict.{Dict}
use cloudtty.Base.Result.{Error, conflict, Result, ok, err}
use cloudtty.Objects.{
  Pod, Service, Secret, Ingress, VirtualService, CloudShell, CloudShellSpec, Node,
}

-- `client.Client` on the objects of one kind. Reads may change the state too, since two reads may
-- differ. A write returns the object as the server answers it, which Go stores in the argument.
pub record Client (S O : Type 0) : Type 0 where
  pub get : String → String → S → Result O × S
  pub create : O → S → Result O × S
  pub update : O → S → Result O × S
  pub delete : O → S → Result (Unit {0}) × S

-- The two backoffs of package retry that the code passes.
pub data Backoff : Type 0 where
  default_retry default_backoff : Backoff

-- A Go structure that fills a template: its fields by name. A resource setting is a pointer.
pub data Value : Type 0 where
  text : String → Value
  pairs : Dict → Value
  optional_pairs : Option Dict → Value
  resources : Option ℕ → Value

abbrev pub Fields : Type 0
Fields = List (String × Value)

pub record Env : Type 1 where
  pub State : Type 0
  pub pods : Client State Pod
  pub services : Client State Service
  pub secrets : Client State Secret
  pub ingresses : Client State Ingress
  pub virtual_services : Client State VirtualService
  pub shells : Client State CloudShell
  -- `Status().Update`
  pub update_status : CloudShell → State → Result (Unit {0}) × State
  -- the listers; a list has a namespace, or none for all, and a label with its value
  pub lister_pod : String → String → State → Result Pod × State
  pub lister_pods : Option String → String → String → State → Result (List Pod) × State
  pub lister_shell : String → String → State → Result CloudShell × State
  -- a write to a pod that the lister gave out: the informer's cache may hold this very object
  pub write_pod : Pod → State → State
  -- the same for a shell
  pub write_shell : CloudShell → State → State
  pub list_nodes : String → State → Result (List Node) × State
  -- the clock, in nanoseconds; `rand.String(10)`; a command in a pod
  pub now : State → ℕ × State
  pub random : State → String × State
  pub exec : String → String → List String → State → Result (Unit {0}) × State
  -- `retry.RetryOnConflict`, whose body keeps its variables in T
  pub retry : Backoff → (T : Type 0) → (T → Result (Unit {0}) × T) → T → Result (Unit {0}) × T
  -- package controllerutil; the answer tells whether the list changed
  pub add_finalizer : List String → String → List String × Bool
  pub remove_finalizer : List String → String → List String × Bool
  pub set_controller_reference : String → Service → Result Service
  -- package cache: keys of work queues
  pub meta_namespace_key : String → String → String
  pub split_meta_namespace_key : String → Result (String × String)
  -- text/template, the decoder, encoding/json
  pub Parsed : Type 0
  pub template_parse : String → Result Parsed
  pub template_execute : Parsed → Fields → Result String
  pub decode_pod : String → Result Pod
  pub decode_service : String → Result Service
  pub decode_ingress : String → Result Ingress
  pub decode_virtual_service : String → Result VirtualService
  pub json_marshal : Dict → Result String
  pub json_unmarshal : String → Result Dict
  -- the environment's variables and files, which stay as they are while the process runs
  pub getenv : String → String
  pub read_file : String → Result String
  -- the data of the config maps of a namespace that have a label
  pub list_config_maps : String → String → State → Result (List Dict) × State
  pub set_secret_reference : String → Secret → Result Secret
  -- base64, net.JoinHostPort, the hexadecimal md5 sum
  pub encode_base64 : String → String
  pub join_host_port : String → String → String
  pub md5_hex : String → String
  -- `fmt`'s verb %q, `strings.TrimSpace`, `reflect.DeepEqual` on specs
  pub quote : String → String
  pub trim_space : String → String
  pub same_spec : CloudShellSpec → CloudShellSpec → Bool
  -- `validation.IsDNS1123Subdomain`: what is wrong with a name
  pub is_dns1123_subdomain : String → List String
  -- `sort.Slice`
  pub sort : (Pod → Pod → Bool) → List Pod → List Pod

-- `RetryOnConflict` runs its body until the error is no conflict, and returns what the last run
-- returned: what every run that ends by a conflict keeps holds before the last run, a run that ends
-- otherwise than by a conflict is the last, and both backoffs allow for a second run.
pub record RetryIsLawful (E : Env) : Type 1 where
  pub retry-last :
      (b : Backoff) (T : Type 0) (body : T → Result (Unit {0}) × T) (Q : T → Type 0)
      (R : Result (Unit {0}) × T → Type 0)
      → ((t : T) → Q t → R (body t) × ((body t).0 ≡ err conflict → Q (body t).1))
      → (t : T) → Q t
      → R (E.retry b T body t)
  pub retry-done :
      (b : Backoff) (T : Type 0) (body : T → Result (Unit {0}) × T) (t : T)
      → (body t).0 ≢ err conflict
      → E.retry b T body t ≡ body t
  pub retry-again :
      (b : Backoff) (T : Type 0) (body : T → Result (Unit {0}) × T) (t : T)
      → (body t).0 ≡ err conflict
      → (body (body t).1).0 ≢ err conflict
      → E.retry b T body t ≡ body (body t).1

-- A finalizer is added once, at the end, removed wholly, and the other finalizers stay.
pub record FinalizersAreLawful (E : Env) : Type 0 where
  pub add-contained :
      (fs : List String) (f : String) → contains fs f ≡ true → E.add_finalizer fs f ≡ (fs, false)
  pub contains-add :
      (fs : List String) (f g : String)
      → contains (E.add_finalizer fs f).0 g ≡ (if f == g then true else contains fs g)
  pub contains-remove :
      (fs : List String) (f g : String)
      → contains (E.remove_finalizer fs f).0 g ≡ (if f == g then false else contains fs g)
  pub remove-changed : (fs : List String) (f : String) → (E.remove_finalizer fs f).1 ≡ contains fs f
