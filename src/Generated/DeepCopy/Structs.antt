-- ===== src/Generated/DeepCopy/Structs.antt =====
-- Every deep copy of pkg/apis/cloudshell/v1alpha1/zz_generated.deepcopy.go copies, when those of other
-- packages do. What is read of a struct is the value that the other modules work on.
use cloudtty.Base.{ℕ, ◌≡◌, ◌∙◌, Option, none, some}
use cloudtty.Generated.DeepCopy.Heap.{
  Heap, secret_references, numbers, ingress_configs, virtual_service_configs, arrays, string_maps,
  quantity_maps, shell_arrays,
}
use cloudtty.Generated.DeepCopy.Copied.{
  give, some-then, IsReading, give-IsReading, then-IsReading, Stays, IsSound, Made, IsDeepCopy,
  pure-Made, step-Made, deep_copy, at_once,
}
use cloudtty.Generated.DeepCopy.Rules.{
  plain-IsDeepCopy, read_pointer, read_items, read_entries, pointer-IsDeepCopy, items-IsDeepCopy,
  entries-IsDeepCopy,
}
use cloudtty.Generated.DeepCopy.Views.{
  Views, read_strings, read_ingress_config, read_spec, read_setting, read_time, read_status,
  read_shell, read_shell_list,
}
use cloudtty.Generated.DeepCopy.{
  Library, copy_pointer, copy_items, copy_entries, copy_strings, copy_ingress_config,
  copy_resource_setting, copy_spec, copy_time_of, copy_status, copy_shell, copy_shell_list,
}

-- The deep copies of other packages copy.
pub record IsLawful {F X Y : Type 0} (L : Library F) (W : Views F X Y) : Type 0 where
  pub object_meta_copied : IsDeepCopy W.object_meta L.object_meta
  pub list_meta_copied : IsDeepCopy W.list_meta L.list_meta
  pub env_var_copied : IsDeepCopy W.env_var L.env_var
  pub quantity_copied : IsDeepCopy W.quantity L.quantity
  pub time_copied : IsDeepCopy W.time L.time

module _ {F X Y : Type 0} {L : Library F} {W : Views F X Y} (lawful : IsLawful L W) where
  strings-IsDeepCopy : IsDeepCopy (read_strings W) (copy_strings L)
  unfolding read_strings copy_strings
  strings-IsDeepCopy = pointer-IsDeepCopy (entries-IsDeepCopy (plain-IsDeepCopy λ a. a)) string_maps

  ingress_config-IsDeepCopy : IsDeepCopy (read_ingress_config W) (copy_ingress_config L)
  unfolding read_ingress_config copy_ingress_config give
  ingress_config-IsDeepCopy =
      deep_copy (λ c. search (then-IsReading, give-IsReading, strings-IsDeepCopy.reads))
        λ c h w sound e.
          step-Made strings-IsDeepCopy c.annotations sound e
            λ v b g s last. pure-Made g _ _ s λ j at_1. some-then _ _ j v at_1 ∙ at_once g last

  quantities-IsDeepCopy :
      IsDeepCopy
        (read_pointer quantity_maps (read_entries W.quantity))
        (copy_pointer quantity_maps (copy_entries L.quantity))
  quantities-IsDeepCopy =
      pointer-IsDeepCopy (entries-IsDeepCopy lawful.quantity_copied) quantity_maps

  setting-IsDeepCopy : IsDeepCopy (read_setting W) (copy_resource_setting L)
  unfolding read_setting copy_resource_setting give
  setting-IsDeepCopy =
      deep_copy (λ c. search (then-IsReading, give-IsReading, quantities-IsDeepCopy.reads))
        λ c h w sound e. step-Made quantities-IsDeepCopy c.limits sound e λ v1 b1 g1 s1 e1.
          step-Made quantities-IsDeepCopy c.requests s1 e1 λ v2 b2 g2 s2 e2.
            pure-Made g2 _ _ s2
              λ j at_2 at_1. some-then _ _ j v1 at_1 ∙ some-then _ _ j v2 at_2 ∙ at_once g2 e2

  time-IsDeepCopy : IsDeepCopy (read_time W) (copy_time_of L)
  unfolding read_time copy_time_of give
  time-IsDeepCopy = deep_copy reads made
    where
      reads : (p : Option ℕ) → IsReading (read_time W p)
      reads none = give-IsReading none
      reads (some p) = then-IsReading _ _ (lawful.time_copied.reads p) λ t. give-IsReading (some t)

      made :
          (p : Option ℕ) (h : Heap F) (v : Option ℕ)
          → IsSound h
          → Stays h (read_time W p) v
          → Made h (λ q g. read_time W q g ≡ some v) (copy_time_of L p h)
      made none h v sound e = pure-Made h none _ sound λ g. at_once h e
      made (some p) h v sound e =
          step-Made lawful.time_copied p sound e λ t q g s last.
            pure-Made g (some q) _ s λ j at_1. some-then _ _ j t at_1 ∙ at_once g last

  status-IsDeepCopy : IsDeepCopy (read_status W) (copy_status L)
  unfolding read_status copy_status give
  status-IsDeepCopy =
      deep_copy (λ c. search (then-IsReading, give-IsReading, time-IsDeepCopy.reads))
        λ c h w sound e.
          step-Made time-IsDeepCopy c.last_schedule_time sound e
            λ v b g s last. pure-Made g _ _ s λ j at_1. some-then _ _ j v at_1 ∙ at_once g last

  env-IsDeepCopy :
      IsDeepCopy
        (read_pointer arrays (read_items W.env_var))
        (copy_pointer arrays (copy_items L.env_var))
  env-IsDeepCopy = pointer-IsDeepCopy (items-IsDeepCopy lawful.env_var_copied) arrays

  spec-IsDeepCopy : IsDeepCopy (read_spec W) (copy_spec L)
  unfolding read_spec copy_spec give
  spec-IsDeepCopy =
      let secret = pointer-IsDeepCopy (plain-IsDeepCopy λ a. a) secret_references in
      let number = pointer-IsDeepCopy (plain-IsDeepCopy λ a. a) numbers in
      let ingress = pointer-IsDeepCopy ingress_config-IsDeepCopy ingress_configs in
      let virtual = pointer-IsDeepCopy (plain-IsDeepCopy λ a. a) virtual_service_configs in
      deep_copy
        (λ c.
          search
            (
              then-IsReading, give-IsReading, secret.reads, number.reads, ingress.reads,
              virtual.reads, env-IsDeepCopy.reads, strings-IsDeepCopy.reads,
            )
            depth 9)
        λ c h w sound e. step-Made secret c.secret_ref sound e λ v1 b1 g1 s1 e1.
          step-Made number c.ttl_seconds_after_started s1 e1 λ v2 b2 g2 s2 e2.
            step-Made ingress c.ingress_config s2 e2 λ v3 b3 g3 s3 e3.
              step-Made virtual c.virtual_service_config s3 e3 λ v4 b4 g4 s4 e4.
                step-Made env-IsDeepCopy c.env s4 e4 λ v5 b5 g5 s5 e5.
                  step-Made strings-IsDeepCopy c.ttyd_client_options s5 e5 λ v6 b6 g6 s6 e6.
                    pure-Made g6 _ _ s6 λ j at6 at5 at4 at3 at2 at1.
                      some-then _ _ j v1 at1
                      ∙ some-then _ _ j v2 at2
                      ∙ some-then _ _ j v3 at3
                      ∙ some-then _ _ j v4 at4
                      ∙ some-then _ _ j v5 at5
                      ∙ some-then _ _ j v6 at6
                      ∙ at_once g6 e6

  pub shell-IsDeepCopy : IsDeepCopy (read_shell W) (copy_shell L)
  unfolding read_shell copy_shell give
  shell-IsDeepCopy =
      deep_copy
        (λ c. search (
          then-IsReading, give-IsReading, lawful.object_meta_copied.reads, spec-IsDeepCopy.reads,
          status-IsDeepCopy.reads,
        ))
        λ c h w sound e. step-Made lawful.object_meta_copied c.metadata sound e λ v1 b1 g1 s1 e1.
          step-Made spec-IsDeepCopy c.spec s1 e1 λ v2 b2 g2 s2 e2.
            step-Made status-IsDeepCopy c.status s2 e2 λ v3 b3 g3 s3 e3.
              pure-Made g3 _ _ s3 λ j at3 at2 at1.
                some-then _ _ j v1 at1
                ∙ some-then _ _ j v2 at2
                ∙ some-then _ _ j v3 at3
                ∙ at_once g3 e3

  pub shell_list-IsDeepCopy : IsDeepCopy (read_shell_list W) (copy_shell_list L)
  unfolding read_shell_list copy_shell_list give
  shell_list-IsDeepCopy =
      let items = pointer-IsDeepCopy (items-IsDeepCopy shell-IsDeepCopy) shell_arrays in
      deep_copy
        (λ c. search (then-IsReading, give-IsReading, lawful.list_meta_copied.reads, items.reads))
        λ c h w sound e. step-Made lawful.list_meta_copied c.metadata sound e λ v1 b1 g1 s1 e1.
          step-Made items c.items s1 e1 λ v2 b2 g2 s2 e2.
            pure-Made g2 _ _ s2
              λ j at2 at1. some-then _ _ j v1 at1 ∙ some-then _ _ j v2 at2 ∙ at_once g2 e2
