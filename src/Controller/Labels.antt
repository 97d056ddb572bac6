-- ===== src/Controller/Labels.antt =====
-- pkg/controllers/utils.go: the label that names a shell's worker, and the phases.
pub mod Limits
use cloudtty.Base.{
  ℕ, ◌-◌, String, ◌<>◌, Bool, Option, none, some, if◌then◌else◌, leb, ◌==◌, ◌||◌, List, [], ◌∷◌,
  true, false, ◌&&◌,
}
use cloudtty.Base.Dict.{Dict, lookup, insert, delete}
use cloudtty.Objects.{CloudShell, Condition}
use cloudtty.Text.{text_length, text_take, text_drop}
use cloudtty.Cluster.{Env}
use cloudtty.WorkerPool.Lending.{or_empty}
use cloudtty.WorkerPool.Scaling.{text_of}

abbrev pub cloudshell_pod_label_key : String
cloudshell_pod_label_key = "cloudshell.cloudtty.io/pod-name"

abbrev pub phase_ready : String
phase_ready = "Ready"

abbrev pub phase_completed : String
phase_completed = "Complete"

abbrev pub phase_failed : String
phase_failed = "Failed"

abbrev pub label_max_length : ℕ
label_max_length = 63

abbrev pub md5_length : ℕ
md5_length = 32

-- `IsJobFinished`, over the conditions of the job.
unfoldable pub is_job_finished : List Condition → Bool × String
is_job_finished [] = (false, "")
is_job_finished (c ∷ cs) =
    if (c.kind == "Complete" || c.kind == "Failed") && c.status == "True"
    then (true, c.kind)
    else is_job_finished cs

unfoldable pub is_cloudshell_finished : CloudShell → Bool
is_cloudshell_finished shell =
    if shell.status.phase == phase_completed || shell.status.phase == phase_failed
    then true
    else false

unfoldable pub is_cloud_shell_ready : CloudShell → Bool
is_cloud_shell_ready shell = shell.status.phase == phase_ready

-- The name of the bound worker's pod, "" where there is none.
unfoldable pub pod_label : CloudShell → String
pod_label shell = text_of (lookup cloudshell_pod_label_key (or_empty shell.labels))

-- `delete(cloudshell.Labels, constants.CloudshellPodLabelKey)`
abbrev pub without_pod_label : Option Dict → Option Dict
without_pod_label none = none
without_pod_label (some labels) = some (delete cloudshell_pod_label_key labels)

unfoldable pub remove_pod_label : CloudShell → CloudShell
remove_pod_label shell = record shell { labels = without_pod_label shell.labels }

module _ (E : Env) where
  unfoldable pub truncate_and_hash_if_exceed : String → String
  truncate_and_hash_if_exceed input =
      if leb (text_length input) label_max_length
      then input
      else text_take (label_max_length - md5_length) input
        <> E.md5_hex (text_drop (label_max_length - md5_length) input)

  unfoldable pub add_label : CloudShell → String → String → CloudShell
  add_label shell key value = record shell {
    labels = some (insert key (truncate_and_hash_if_exceed value) (or_empty shell.labels));
  }
