-- ===== src/Command/Wiring.antt =====
-- `StartControllers` of cmd/app/cloudshell-manager.go with `New` of
-- pkg/controllers/cloudshell_controller.go: which informer of shells the controller waits for, reads
-- and listens to, and that the factory starts it.
use cloudtty.Base.{ℕ, ◌≡◌, refl, ◌∙◌, false, List, [], arith}
use cloudtty.Generated.Informers.{
  Informer, Factory, new_shared_informer_factory, start, NewInformer, informer_for, found_or_made,
  make_informer, cloud_shells,
}
use cloudtty.Generated.Informers.Soundness.{runs, Call, run}
use cloudtty.Generated.Informers.Sharing.{
  informer_for_shared, given_starts_once, new_factory, Setting,
}

-- The informers behind the fields `cloudshellInformer` and `lister` of the controller, and the one that
-- its handlers are added to.
pub record Wiring : Type 0 where
  pub awaited : Informer
  pub listed : Informer
  pub handled : Informer

-- `New`, which is handed the accessor.
unfoldable pub wire : NewInformer → Factory → Wiring × Factory
wire shells f =
    let (awaited, f1) = informer_for shells f in
    let (listed, f2) = informer_for shells f1 in
    let (handled, f3) = informer_for shells f2 in
    (record { awaited = awaited; listed = listed; handled = handled }, f3)

-- The factory of shells in `StartControllers`, without resync.
unfoldable pub wire_and_start : Wiring × Factory
unfolding wire
wire_and_start =
    let f = new_shared_informer_factory 0 in
    let (wiring, g) = wire (cloud_shells f) f in (wiring, start g)

informer_for-shutting_down :
    (new : NewInformer) (f : Factory) → (informer_for new f).1.shutting_down ≡ f.shutting_down
unfolding informer_for found_or_made make_informer
informer_for-shutting_down new f = ground arith

-- The controller waits for, reads and listens to one and the same informer of shells, and when the
-- factory is started after that, it has been started exactly once: from any factory with the
-- package's options, after any calls of it but `Shutdown`.
pub wire_shares :
    (resync : ℕ) (os : List Setting) (earlier : List Call) (shells : NewInformer)
    → (run earlier (new_factory resync os)).shutting_down ≡ false
    → ((wire shells (run earlier (new_factory resync os))).0.listed
        ≡ (wire shells (run earlier (new_factory resync os))).0.awaited)
      × ((wire shells (run earlier (new_factory resync os))).0.handled
          ≡ (wire shells (run earlier (new_factory resync os))).0.awaited)
      × (runs
            (wire shells (run earlier (new_factory resync os))).0.handled.serial
            (start (wire shells (run earlier (new_factory resync os))).1).running
          ≡ 1)
unfolding wire run
wire_shares resync os earlier shells up =
    let again = (informer_for_shared resync os earlier [] shells shells refl).0 in
    let once =
      given_starts_once resync os earlier [] shells
        (informer_for-shutting_down shells (run earlier (new_factory resync os)) ∙ up) in
    rw (again, again) (refl, refl, once)
