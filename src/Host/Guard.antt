-- ===== src/Host/Guard.antt =====
-- The process guards of vaws_coordinator/host/vaws_npu_coordination.py: `process_guard_busy`,
-- `unguarded_cpu_process`, `unguarded_shared_process` and `_managed_shared_completion`.
-- `/proc` is an argument: what reading the boot id and each process gave.
use Prim.Native.String.{◌++◌ as text_append}
use vaws_coordinator.Prelude.{
  ℕ, String, Bool, true, false, Option, none, some, List, [], ◌∷◌, ◌&&◌, ◌||◌, not, leb, ◌==◌,
  nat_eq, string_eq, if◌then◌else◌, all_of, length, contains, is_some, is_none,
}
use vaws_coordinator.Host.State.{active, orphaned_busy, state_eq, Guard, Task}
use vaws_coordinator.Host.Ids.{codes}

-- What the body of the `try` made of one numbered directory of /proc: the process was gone, it
-- was denied, it raised something else, or it gave its state (zombie or not) and environment.
pub data Proc : Type 0 where
  gone denied failed : Proc
  seen : Bool → List String → Proc

pub record Procfs : Type 0 where
  pub boot_id : Option String
  pub processes : List Proc

abbrev is_lower_hex : ℕ → Bool
is_lower_hex c = leb b'0' c && leb c b'9' || leb b'a' c && leb c b'f'

-- re.fullmatch(r"[0-9a-f]{32}", marker)
unfoldable pub is_marker : String → Bool
is_marker marker = length (codes marker) == 32 && all_of is_lower_hex (codes marker)

abbrev pub job_token : String → String
job_token marker = text_append "REMOTE_DEV_JOB_TOKEN=" marker

-- How the scan of /proc ends: by `return True`, or at the end with the flag `unknown`.
pub data Scan : Type 0 where
  busy : Scan
  ended : Bool → Scan

unfoldable pub scan_processes : String → Bool → List Proc → Scan
scan_processes marker unknown [] = ended unknown
scan_processes marker unknown (gone ∷ rest) = scan_processes marker unknown rest
scan_processes marker unknown (denied ∷ rest) = scan_processes marker true rest
scan_processes marker unknown (failed ∷ rest) = busy
scan_processes marker unknown (seen zombie environ ∷ rest) =
    let others = scan_processes marker unknown rest in
    if not zombie && contains (job_token marker) environ then busy else others

abbrev pub scan_busy : Scan → Bool → Bool
scan_busy busy retained = true
scan_busy (ended unknown) retained = unknown || retained

unfoldable pub guard_busy : Procfs → Guard → Bool → Bool
unfolding is_marker scan_processes
guard_busy proc guard completion_confirmed =
    if not (is_marker guard.marker) then true else elim proc.boot_id [
      | none ↦ true
      | some boot_id ↦
          if not (boot_id == guard.boot_id)
          then true
          else scan_busy (scan_processes guard.marker false proc.processes)
              (guard.retain_until_release && not completion_confirmed)
    ]

unfoldable pub process_guard_busy : Procfs → Option Guard → Bool → Bool
unfolding guard_busy
process_guard_busy proc none completion_confirmed = false
process_guard_busy proc (some guard) completion_confirmed =
    guard_busy proc guard completion_confirmed

unfoldable pub unguarded_cpu_process : Task → Bool
unguarded_cpu_process row =
    row.requested_count == 0
    && is_none row.process_guard
    && (row.state == active || row.state == orphaned_busy && is_some row.pid)

unfoldable pub unguarded_shared_process : Task → Bool
unguarded_shared_process row =
    row.allow_external_busy
    && is_none row.process_guard
    && (row.state == active || row.state == orphaned_busy && is_some row.started_at)

abbrev is_managed_guard : Option Guard → Bool
is_managed_guard none = false
is_managed_guard (some guard) =
    guard.retain_until_release && is_marker guard.marker && not (guard.boot_id == "")

unfoldable pub managed_shared_completion : Task → Bool → Bool
unfolding is_marker
managed_shared_completion row completion_confirmed =
    completion_confirmed
    && row.allow_external_busy
    && (row.state == active || row.state == orphaned_busy)
    && is_managed_guard row.process_guard
