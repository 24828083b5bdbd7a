-- ===== src/Host/Evidence/Guarded.antt =====
-- When `process_guard_busy` of vaws_coordinator/host/vaws_npu_coordination.py calls a guarded
-- process gone.
use vaws_coordinator.Prelude.{
  String, Bool, true, false, ◌≡◌, refl, inl, inr, some, List, [], ◌∷◌, arith, ◌&&◌, ◌||◌, not, ◌==◌,
  Option-cases, string_eq, option_eq, contains, all_of,
}
use vaws_coordinator.Host.State.{Guard}
use vaws_coordinator.Host.Guard.{
  Proc, gone, denied, failed, seen, Procfs, is_marker, job_token, scan_processes, guard_busy,
  process_guard_busy, scan_busy,
}

-- The process was gone, is a zombie or does not carry the marker.
abbrev pub is_quiet : String → Proc → Bool
is_quiet marker gone = true
is_quiet marker denied = false
is_quiet marker failed = false
is_quiet marker (seen zombie environ) = zombie || not (contains (job_token marker) environ)

scan_quiet :
    (marker : String) (unknown : Bool) (procs : List Proc) (retained : Bool)
    → scan_busy (scan_processes marker unknown procs) retained
      ≡ not (all_of (is_quiet marker) procs) || (unknown || retained)
unfolding scan_processes
scan_quiet marker unknown [] retained = refl
scan_quiet marker unknown (gone ∷ rest) retained = scan_quiet marker unknown rest retained
scan_quiet marker unknown (denied ∷ rest) retained =
    ground (arith, scan_quiet marker true rest retained)
scan_quiet marker unknown (failed ∷ rest) retained = refl
scan_quiet marker unknown (seen zombie environ ∷ rest) retained =
    ground (arith, scan_quiet marker unknown rest retained)

-- A guarded process is free exactly when the guard's marker is well formed, the host still runs
-- the boot of the guard, every process was read and is gone, a zombie or without the marker in
-- its environment, and a retained guard has its completion confirmed.
pub guard_free_iff :
    (proc : Procfs) (g : Guard) (completion_confirmed : Bool)
    → process_guard_busy proc (some g) completion_confirmed
      ≡ not (
          is_marker g.marker
          && (proc.boot_id == some g.boot_id)
          && all_of (is_quiet g.marker) proc.processes
          && (not g.retain_until_release || completion_confirmed))
unfolding process_guard_busy guard_busy
guard_free_iff proc g completion_confirmed = elim (Option-cases proc.boot_id) [
  | inl unread ↦ ground arith
  | inr (boot, read) ↦ ground (
    arith,
    scan_quiet g.marker false proc.processes (g.retain_until_release && not completion_confirmed),
  )
]
