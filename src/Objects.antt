-- ===== src/Objects.antt =====
-- The parts of the Kubernetes objects that the code reads and writes, and the CloudShell resource
-- of pkg/apis/cloudshell/v1alpha1/types.go. Times are nanoseconds; a zero time is `none`.
use cloudtty.Base.{ℕ, String, Bool, Option, none, List, []}
use cloudtty.Base.Dict.{Dict}
use cloudtty.Base.Int.{ℤ}

pub record Container : Type 0 where
  pub name : String
  pub image : String

pub record Condition : Type 0 where
  pub kind : String
  pub status : String
  pub last_transition_time : Option ℕ

-- `labels` is `none` where the map is nil.
pub record Pod : Type 0 where
  pub name : String
  pub namespace : String
  pub labels : Option Dict
  pub finalizers : List String
  pub deletion_timestamp : Option ℕ
  pub creation_timestamp : Option ℕ
  pub containers : List Container
  pub conditions : List Condition

-- `&corev1.Pod{}`
abbrev pub empty_pod : Pod
empty_pod = record {
  name = "";
  namespace = "";
  labels = none;
  finalizers = [];
  deletion_timestamp = none;
  creation_timestamp = none;
  containers = [];
  conditions = [];
}

-- What an informer hands to its handlers: `tombstone` is a `DeletedFinalStateUnknown`, whose object
-- may be missing.
pub data Informed (A : Type 0) : Type 0 where
  object : A → Informed A
  tombstone : Option A → Informed A
  other_object : Informed A

pub record Service : Type 0 where
  pub name : String
  pub namespace : String
  pub labels : Option Dict
  pub resource_version : String
  pub ports : List ℕ

pub record Secret : Type 0 where
  pub name : String
  pub generate_name : String
  pub namespace : String
  pub contents : Dict

-- A path of an ingress rule, with its backend.
pub record IngressPath : Type 0 where
  pub path : String
  pub service : String
  pub port : ℕ

-- A rule is `none` where its HTTP pointer is nil.
pub record Ingress : Type 0 where
  pub name : String
  pub namespace : String
  pub labels : Option Dict
  pub annotations : Option Dict
  pub rules : List (Option (List IngressPath))

-- The URI of a match: nil, of another kind than a prefix, or a prefix.
pub data UriMatch : Type 0 where
  no_uri other_uri : UriMatch
  prefix_uri : String → UriMatch

-- `destinations` has the host of each destination, or `none` where that pointer is nil.
pub record HttpRoute : Type 0 where
  pub matches : List UriMatch
  pub destinations : List (Option String)

pub record VirtualService : Type 0 where
  pub name : String
  pub namespace : String
  pub labels : Option Dict
  pub http : List HttpRoute

pub record IngressConfig : Type 0 where
  pub ingress_name : String
  pub namespace : String
  pub ingress_class_name : String
  pub annotations : Option Dict
  pub host : String

pub record VirtualServiceConfig : Type 0 where
  pub virtual_service_name : String
  pub namespace : String
  pub export_to : String
  pub gateway : String

pub record CloudShellSpec : Type 0 where
  pub secret_ref : Option String
  pub image : String
  pub once : Bool
  pub command_action : String
  pub ttl_seconds_after_started : Option ℤ
  pub cleanup : Bool
  pub expose_mode : String
  pub ingress_config : Option IngressConfig
  pub virtual_service_config : Option VirtualServiceConfig
  pub path_prefix : String
  pub path_suffix : String
  pub url_arg : Bool
  pub env : List (String × String)
  pub ttyd_client_options : Option Dict

pub record CloudShellStatus : Type 0 where
  pub phase : String
  pub access_url : String
  pub last_schedule_time : Option ℕ

pub record CloudShell : Type 0 where
  pub name : String
  pub namespace : String
  pub labels : Option Dict
  pub finalizers : List String
  pub deletion_timestamp : Option ℕ
  pub spec : CloudShellSpec
  pub status : CloudShellStatus

-- A node with the addresses that its status lists.
pub record NodeAddress : Type 0 where
  pub kind : String
  pub address : String

pub record Node : Type 0 where
  pub conditions : List Condition
  pub addresses : List NodeAddress
