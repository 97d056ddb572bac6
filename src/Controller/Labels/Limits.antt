-- ===== src/Controller/Labels/Limits.antt =====
-- The length of label values, and the label that names a shell's worker.
use text.Mathlib.TextLemmas.{nil-append, cons-append}
use cloudtty.Base.{ℕ, zero, suc, ◌+◌, ◌≤◌, String, ◌<>◌, ◌≡◌, arith, eq_iff}
use cloudtty.Base.Dict.{lookup-insert}
use cloudtty.Objects.{CloudShell}
use cloudtty.Text.{text_length, text_take, text_drop}
use cloudtty.Cluster.{Env}
use cloudtty.WorkerPool.Lending.{or_empty}
use cloudtty.Controller.Labels.{
  truncate_and_hash_if_exceed, add_label, pod_label, cloudshell_pod_label_key,
}

text_length-append : (s t : String) → text_length (s <> t) ≡ text_length s + text_length t
text_length-append String.[] t = rw (nil-append t) (omega arith)
text_length-append (String.◌∷◌ c s) t =
    rw (cons-append c s t) (omega (arith, text_length-append s t))

text_length-take : (n : ℕ) (s : String) → text_length (text_take n s) ≤ n
text_length-take zero s = omega arith
text_length-take (suc n) String.[] = omega arith
text_length-take (suc n) (String.◌∷◌ c s) = omega (arith, text_length-take n s)

module _ (E : Env) where
  -- A label's value has at most 63 characters, and a value that is no longer than that is itself, if a
  -- hexadecimal md5 sum has 32.
  pub truncate_and_hash_if_exceed_bounded :
      ((s : String) → text_length (E.md5_hex s) ≡ 32)
      → (input : String)
      → (text_length (truncate_and_hash_if_exceed E input) ≤ 63)
        × (text_length input ≤ 63 → truncate_and_hash_if_exceed E input ≡ input)
  unfolding truncate_and_hash_if_exceed
  truncate_and_hash_if_exceed_bounded md5 input = (
    ground (
      arith,
      text_length-append (text_take 31 input) (E.md5_hex (text_drop 31 input)),
      text_length-take 31 input,
      md5 (text_drop 31 input),
    ),
    λ h. ground (arith, h),
  )

  -- A shell's pod label reads back the name of the worker that it was given, if that has at most 63
  -- characters.
  pub pod_label-add_label :
      (shell : CloudShell) (name : String)
      → text_length name ≤ 63
      → pod_label (add_label E shell cloudshell_pod_label_key name) ≡ name
  unfolding pod_label add_label truncate_and_hash_if_exceed
  pod_label-add_label shell name h = ground (
    arith,
    lookup-insert cloudshell_pod_label_key cloudshell_pod_label_key name (or_empty shell.labels),
    eq_iff cloudshell_pod_label_key cloudshell_pod_label_key,
  )
