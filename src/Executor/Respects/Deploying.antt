-- ===== src/Executor/Respects/Deploying.antt =====
-- The steps before and after a deployment respect what the calls do that neither create nor delete
-- servers.
use machine_controller_manag.Base.{String, List, [], ◌∷◌}
use machine_controller_manag.Action.Respects.{
  Preorder, Respects, Respects-pure, Respects-call, Respects-bind, Respects-map_error, Respects-if,
}
use machine_controller_manag.Cloud.{status_active, status_build}
use machine_controller_manag.Executor.Defs.{Executor, Poller, PollsInRounds, spec_of}
use machine_controller_manag.Executor.Deploy.{resolve_image, resolve_flavor}
use machine_controller_manag.Executor.Create.{wait_until_active, patch_ports_of, post_process}
use machine_controller_manag.Executor.Respects.Services.{Reads}
use machine_controller_manag.Executor.Respects.Steps.{patch-Respects, wait_for_status-Respects}

module _ {W : Type 0} (ex : Executor W) (O : Preorder W) (reads : Reads O ex) where
  pub resolve_image-Respects : Respects O (resolve_image ex)
  unfolding resolve_image
  resolve_image-Respects =
      Respects-if _ _ _
        (Respects-map_error _ _
          (Respects-call (ex.compute.image_id_from_name _) (reads.image_id_from_name _)))
        (Respects-pure (spec_of ex).image_id)

  pub resolve_flavor-Respects : Respects O (resolve_flavor ex)
  unfolding resolve_flavor
  resolve_flavor-Respects =
      Respects-map_error _ _
        (Respects-call (ex.compute.flavor_id_from_name _) (reads.flavor_id_from_name _))

  pub post_process-Respects :
      (P : Poller W)
      → PollsInRounds P
      → (id : String) (ids : List String) → Respects O (post_process ex P id ids)
  unfolding post_process wait_until_active patch_ports_of
  post_process-Respects P polls id ids =
      Respects-bind (wait_until_active ex P id) _
        (Respects-map_error _ _ (
          wait_for_status-Respects ex O reads P polls id (status_build ∷ []) (status_active ∷ [])
            600))
        λ _. Respects-map_error _ _ (patch-Respects ex O reads id ids)
