-- ===== src/App/ResponseTests.antt =====
-- The answer to GET /health/services at a concrete view.
use opdl.Base.{ℕ, ◌≡◌, refl, String, [], ◌∷◌, lookup}
use opdl.HealthView.Inventory.{Deployment, ServiceUnit, status_healthy, key_eq}
use opdl.HealthView.View.{View, Report, no_drops}
use opdl.HealthView.Snapshot.{render_all, snapshot, summarise, render_unit, sorted}
use opdl.HealthFabric.Message.{Identity}
use opdl.HealthFabric.Publisher.{new_publisher}
use opdl.HealthFabric.Subscriber.{new_subscriber}
use opdl.App.Response.{response, service_unit}
use opdl.App.Monitoring.{service_status}
use opdl.App.ResponseCounts.{shown_as, CountsOf, response-CountsOf}

abbrev site : Deployment
site = record { project = "p"; environment = "e"; site = "s" }

abbrev billing : ServiceUnit
billing = record {
  key = record { machine = "m"; service = "billing" };
  machine_profile = "linux";
  service_role = "api";
  observer_roles = "primary" ∷ [];
  fresh_for = 50;
}

abbrev orders : ServiceUnit
orders = record billing { key = record { machine = "m"; service = "orders" } }

abbrev found : Report
found = record {
  epoch = 3;
  sequence = 1;
  status = status_healthy;
  checked_at_utc = 90;
  received_at = 100;
  latency = 2000000;
  consecutive_failures = 0;
  failure = "";
}

-- One service is found healthy, and nothing is known of the other.
abbrev view : View
view = record {
  deployment = site;
  order = billing.key ∷ orders.key ∷ [];
  units =
      (billing.key, record { unit = billing; observed = ("primary", found) ∷ [] })
      ∷ (orders.key, record { unit = orders; observed = [] })
      ∷ [];
  drops = no_drops;
}

abbrev identity : Identity
identity = record { deployment = site; machine = "m"; observer_role = "primary"; epoch = 3 }

abbrev written : ℕ → String
written t = "2026-01-01T00:00:00Z"

response-CountsOf_example :
    let r =
      response written "m" "primary" 120 view (new_publisher identity) (new_subscriber view) in
    CountsOf r.summary r.services
response-CountsOf_example =
    response-CountsOf written "m" "primary" 120 view (new_publisher identity) (new_subscriber view)

counted :
    let r =
      response written "m" "primary" 120 view (new_publisher identity) (new_subscriber view) in
    (r.summary.healthy ≡ 1) × ((r.summary.unknown ≡ 1) × (shown_as "Healthy" r.services ≡ 1))
unfolding response snapshot render_all summarise render_unit service_unit service_status lookup
    sorted
counted = (refl, (refl, refl))
