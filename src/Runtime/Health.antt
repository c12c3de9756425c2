-- ===== src/Runtime/Health.antt =====
-- platform/internal/app/servicehealth.go: how a process starts its monitoring and stops it. The probing
-- and the connection are calls of the environment; the targets, the inventory and the view are the
-- process's own.
use opdl.Base.{true, [], ◌∷◌}
use opdl.HealthView.View.{View, NewResult, built, not_built, new_view}
use opdl.Deployment.Types.{Descriptor}
use opdl.App.Setup.{Composed, fails, health_targets, health_inventory, deployment_of}
use opdl.Runtime.Io.{
  health_conn, subscription, health_publisher, monitor, opens, closes, bad_setup, World, Io, pure,
  raise, ◌>>=◌, ◌>>◌, all_quietly, call, keeping,
}

abbrev pub of_composed : {A : Type 0} → Composed A → Io A
of_composed (Composed.ok a) = pure a
of_composed (fails e) = raise (bad_setup e ∷ [])

abbrev pub of_view : NewResult → Io View
of_view (built v) = pure v
of_view (not_built e) = raise (bad_setup "service health view" ∷ [])

module _ (w : World) where
  -- The connection, the subscription, the publisher and the probing, in this order; where one fails,
  -- those before it are closed.
  unfoldable pub start_parts : Io (Unit {0})
  start_parts =
      keeping w health_conn
        (keeping w subscription (keeping w health_publisher (call w (opens monitor))))

  -- `startServiceHealth`.
  unfoldable pub start_service_health : Descriptor → Io (Unit {0})
  unfolding start_parts
  start_service_health d =
      of_composed (health_targets w.parsers d)
      >> of_composed (health_inventory w.parsers d)
      >>= λ units. of_view (new_view (deployment_of d) units true) >> start_parts

-- `Stop`.
unfoldable pub stop_service_health : Io (Unit {0})
stop_service_health =
    all_quietly
      (closes monitor ∷ closes health_publisher ∷ closes subscription ∷ closes health_conn ∷ [])
