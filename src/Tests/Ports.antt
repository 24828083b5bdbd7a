-- ===== src/Tests/Ports.antt =====
-- The theorems on ports at concrete inputs.
use vaws_coordinator.Prelude.{◌≡◌, true, refl, [], ◌∷◌, distinct, nat_eq}
use vaws_coordinator.Host.Run.{run_all, fresh_db}
use vaws_coordinator.Host.Ports.{select_service_port, claim_candidate, choose_ssh_port, claim_port}
use vaws_coordinator.Host.Ports.Unique.{port_numbers}
use vaws_coordinator.Host.Ports.History.{ports_unique}
use vaws_coordinator.Tests.Samples.{two_ports, text_lt}

ports_claimed :
    port_numbers (run_all text_lt two_ports (fresh_db "epoch")).ports ≡ 30002 ∷ 46001 ∷ []
unfolding run_all select_service_port claim_candidate choose_ssh_port claim_port
ports_claimed = refl

ports_unique_example :
    distinct (port_numbers (run_all text_lt two_ports (fresh_db "epoch")).ports) ≡ true
ports_unique_example = ports_unique text_lt "epoch" two_ports
