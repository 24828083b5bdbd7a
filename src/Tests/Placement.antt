-- ===== src/Tests/Placement.antt =====
-- The choice of prepared roots at a concrete catalog.
use vaws_coordinator.Prelude.{
  String, true, false, ◌≡◌, refl, List, [], ◌∷◌, filter, map, distinct, string_eq, not, ◌||◌,
}
use vaws_coordinator.Placement.{
  Profile, Runtime, Environment, Role, is_ready, distinct_hosts_required, select_runtimes,
}
use vaws_coordinator.Placement.Choice.{Serves, are_apart, select_runtimes-Serves}

abbrev unstated : Profile
unstated = record { recipe = ""; python_abi = ""; cann = ""; soc = ""; machine_type = "" }

abbrev root : String → String → Runtime
root id host = record {
  runtime_id = id;
  state = "ready";
  user = "alice";
  draining = false;
  own = record unstated { recipe = "rc" };
  profile = unstated;
  host = host;
  endpoint_host = "";
  service_ports = 30001 ∷ [];
}

abbrev catalog : List Runtime
catalog = root "root-1" "host-1" ∷ root "root-2" "host-1" ∷ root "root-3" "host-2" ∷ []

abbrev anywhere : Role
anywhere = record { host = ""; service_port = 0 }

abbrev wanted : Environment
wanted = record { constraints = record unstated { recipe = "rc" }; image = "" }

abbrev chosen : List Runtime
chosen = root "root-1" "host-1" ∷ root "root-3" "host-2" ∷ []

select_runtimes-Serves_example :
    Serves wanted (filter (is_ready "alice" []) catalog) (anywhere ∷ anywhere ∷ []) chosen
    × (distinct (map (λ (r : Runtime). r.runtime_id) chosen) ≡ true)
    × ((not (distinct_hosts_required (anywhere ∷ anywhere ∷ []) true) || are_apart [] chosen)
        ≡ true)
unfolding select_runtimes
select_runtimes-Serves_example =
    select_runtimes-Serves catalog "alice" (anywhere ∷ anywhere ∷ []) wanted [] true chosen refl
