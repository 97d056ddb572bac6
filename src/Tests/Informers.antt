-- ===== src/Tests/Informers.antt =====
-- The theorems on the factory of informers.
use cloudtty.Base.{◌≡◌, refl, ◌≤◌, List, [], ◌∷◌, none}
use cloudtty.Generated.Informers.{
  NewInformer, informer_for, start, new_shared_informer_factory_with_options, with_namespace,
  start_informers, with_custom_resync_config,
}
use cloudtty.Generated.Informers.Soundness.{runs, Call, asks, starts, run}
use cloudtty.Generated.Informers.Sharing.{
  Setting, namespaced, resynced, new_factory, given, after_calls, informer_for_shared,
}
use cloudtty.Command.Wiring.{wire, wire_shares}

abbrev shells : NewInformer
shells = record { kind = "*v1alpha1.CloudShell"; namespace = "team"; tweak_list_options = none }

abbrev others : NewInformer
others = record { kind = "*v1.Pod"; namespace = ""; tweak_list_options = none }

abbrev settings : List Setting
settings = namespaced "team" ∷ resynced (("*v1alpha1.CloudShell", 30) ∷ []) ∷ []

abbrev calls : List Call
calls = asks others ∷ starts ∷ asks shells ∷ starts ∷ []

informer_for_shared_example :
    (informer_for shells (after_calls 0 settings (asks others ∷ []) calls shells) ≡ (
      given 0 settings (asks others ∷ []) calls shells,
      after_calls 0 settings (asks others ∷ []) calls shells,
    ))
    × (runs
          (given 0 settings (asks others ∷ []) calls shells).serial
          (after_calls 0 settings (asks others ∷ []) calls shells).running
        ≤ 1)
informer_for_shared_example =
    informer_for_shared 0 settings (asks others ∷ []) calls shells shells refl

wire_shares_example :
    ((wire shells (run (starts ∷ []) (new_factory 0 settings))).0.listed
      ≡ (wire shells (run (starts ∷ []) (new_factory 0 settings))).0.awaited)
    × ((wire shells (run (starts ∷ []) (new_factory 0 settings))).0.handled
        ≡ (wire shells (run (starts ∷ []) (new_factory 0 settings))).0.awaited)
    × (runs
          (wire shells (run (starts ∷ []) (new_factory 0 settings))).0.handled.serial
          (start (wire shells (run (starts ∷ []) (new_factory 0 settings))).1).running
        ≡ 1)
unfolding run start new_shared_informer_factory_with_options with_custom_resync_config
    with_namespace start_informers
wire_shares_example = wire_shares 0 settings (starts ∷ []) shells refl
