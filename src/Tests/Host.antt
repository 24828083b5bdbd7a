-- ===== src/Tests/Host.antt =====
-- The host coordinator's theorems at concrete inputs.
use vaws_coordinator.Prelude.{
  ℕ, List, In, IsSorted, distinct, length, sort, true, false, ◌≡◌, refl, none, [], ◌∷◌, contains,
  nat_eq, here, there, ◌≤◌, map, get_or, ne_of_test, string_eq,
}
use vaws_coordinator.Host.State.{Task, Db}
use vaws_coordinator.Prelude.Int.{pos}
use vaws_coordinator.Host.Ids.{DeviceToken, integer, parse_devices}
use vaws_coordinator.Host.Ids.Parsed.{parse_devices_exact}
use vaws_coordinator.Host.Submit.{queued_task}
use vaws_coordinator.Host.Devices.{leased}
use vaws_coordinator.Host.Run.{run_all, fresh_db}
use vaws_coordinator.Host.Ledger.History.{leases_exclusive, fences_unique}
use vaws_coordinator.Host.Release.{release}
use vaws_coordinator.Host.Ledger.Rows.{Exclusive}
use vaws_coordinator.Host.Ledger.Stale.{stale_release_leases_twice}
use vaws_coordinator.Tests.Samples.{two_grants, elapsed_grant, quiet, text_lt, blank}

abbrev after_grants : Db
after_grants = run_all text_lt two_grants (fresh_db "epoch")

abbrev first_row : Task
first_row = get_or after_grants.tasks 0 (queued_task "" blank none)

abbrev second_row : Task
second_row = get_or after_grants.tasks 1 (queued_task "" blank none)

grants : map leased after_grants.tasks ≡ (0 ∷ []) ∷ (1 ∷ []) ∷ []
unfolding run_all
grants = refl

leases_exclusive_example : contains 0 (leased second_row) ≡ false
unfolding run_all
leases_exclusive_example =
    leases_exclusive text_lt "epoch" two_grants (tt, (tt, (tt, (tt, tt)))) first_row second_row 0
      here (there here) (λ e. ne_of_test "task-a" "task-b" refl e) refl

fences_unique_example : (1 ≤ after_grants.next_fence) × (first_row ≡ first_row)
unfolding run_all
fences_unique_example =
    fences_unique text_lt "epoch" two_grants (tt, (tt, (tt, (tt, tt)))) first_row first_row 1 here
      here refl refl

abbrev after_elapsed : Db
after_elapsed = run_all text_lt elapsed_grant (fresh_db "epoch")

abbrev elapsed_row : Task
elapsed_row = get_or after_elapsed.tasks 0 (queued_task "" blank none)

abbrev next_row : Task
next_row = get_or after_elapsed.tasks 1 (queued_task "" blank none)

elapsed_leases : map leased after_elapsed.tasks ≡ [] ∷ (0 ∷ []) ∷ []
unfolding run_all
elapsed_leases = refl

stale_release_leases_twice_example :
    ¬ Exclusive (release none 201 quiet "task-a" 1 none false none after_elapsed).1.tasks
unfolding run_all
stale_release_leases_twice_example =
    stale_release_leases_twice 201 quiet "task-a" 1 none false none after_elapsed elapsed_row refl
      refl refl refl refl 0 refl next_row (there here) (ne_of_test next_row.task_id "task-a" refl)
      refl

abbrev items : List DeviceToken
items = integer (pos 3) ∷ integer (pos 1) ∷ []

abbrev parsed : List ℕ
parsed = 1 ∷ 3 ∷ []

parse_devices_exact_example :
    IsSorted parsed
    × (distinct parsed ≡ true)
    × (length parsed ≡ length items)
    × ((d : ℕ) → contains d parsed ≡ true → In (integer (pos d)) items)
unfolding parse_devices sort
parse_devices_exact_example = parse_devices_exact items false parsed refl
