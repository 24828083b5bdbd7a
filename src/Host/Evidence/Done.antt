-- ===== src/Host/Evidence/Done.antt =====
-- What `release` of vaws_coordinator/host/vaws_npu_coordination.py knows when it frees a lease.
use vaws_coordinator.Prelude.{
  ℕ, String, Bool, true, false, ◌≡◌, refl, sym, ◌∙◌, subst, inl, inr, Option, none, some, List, [],
  ◌∷◌, arith, ◌&&◌, ◌||◌, not, ◌==◌, ==→≡, Bool-cases, nat_eq, contains, contains-sort, sort,
  filter, if◌then◌else◌,
}
use vaws_coordinator.Host.State.{Task, Db, Observation, Listening}
use vaws_coordinator.Host.Result.{ok}
use vaws_coordinator.Host.Table.{
  task_row, check_token, token_matches, busy_set, visible_set, load_devices,
}
use vaws_coordinator.Host.Guard.{Procfs, managed_shared_completion}
use vaws_coordinator.Host.Housekeep.{is_empty}
use vaws_coordinator.Host.Ports.{service_ports_busy}
use vaws_coordinator.Host.Release.{
  done, is_unknown, release_conflicts, release_blocked, defer_release, settle_release, release_body,
}
use vaws_coordinator.Host.Fair.{with_row-reply}

defer_not_done :
    (now : ℕ) (row row' : Task) (conflicts busy_ports : List ℕ) (db db' : Db)
    → defer_release now row conflicts busy_ports db ≡ ok (done row', db')
    → ⊥
unfolding defer_release
defer_not_done now row row' conflicts busy_ports db db' e =
    let (t, same) = with_row-reply row.task_id _ _ _ db' e in cc same

module _ (now : ℕ) (proc : Procfs) (id : String) (token : ℕ) (observed : Option Observation)
    (confirmed : Bool) (listening : Option Listening) (db : Db) (row : Task) where
  abbrev pub conflicts_of : List ℕ
  conflicts_of =
      if managed_shared_completion row confirmed
      then []
      else release_conflicts (busy_set observed) (visible_set observed) row

  pub unblocked :
      {row' : Task} {db' : Db}
      → task_row id db ≡ ok row
      → release_body now proc id token observed confirmed listening db ≡ ok (done row', db')
      → release_blocked proc observed confirmed row conflicts_of
          (service_ports_busy db id listening)
        ≡ false
  unfolding release_body settle_release
  unblocked {row'} {db'} found e =
      let busy_ports = service_ports_busy db id listening in
      elim (Bool-cases (token_matches row.fence_token token)) [
        | inr stale ↦ absurd (unfold check_token in ground arith)
        | inl fits ↦
            elim (Bool-cases
              (release_blocked proc observed confirmed row conflicts_of busy_ports)) [
                | inr free ↦ free
                | inl blocked ↦ absurd (
                    defer_not_done now row row' conflicts_of busy_ports db db'
                      (unfold check_token in ground arith))
              ]
      ]

-- What is known of a device that a release frees.
pub record DeviceClear (observed : Option Observation) (row : Task) (device : ℕ) : Type 0 where
  pub busy : List ℕ
  pub visible : List ℕ
  pub busy_known : busy_set observed ≡ some busy
  pub visible_known : visible_set observed ≡ some visible
  pub seen : contains device visible ≡ true
  pub idle : (contains device busy && not row.allow_external_busy) ≡ false

pub empty_contains : (xs : List ℕ) (d : ℕ) → is_empty xs ≡ true → contains d xs ≡ true → ⊥
empty_contains [] d e m = cc m
empty_contains (x ∷ xs) d e m = cc e

nonempty : (xs : List ℕ) (d : ℕ) → contains d xs ≡ true → is_empty xs ≡ false
nonempty [] d m = absurd (cc m)
nonempty (x ∷ xs) d m = refl

pub kept :
    (p : ℕ → Bool) (xs : List ℕ) (d : ℕ)
    → contains d xs ≡ true
    → p d ≡ true
    → contains d (filter p xs) ≡ true
kept p [] d m e = absurd (cc m)
kept p (x ∷ xs) d m e = elim (Bool-cases (x == d)) [
  | inl same ↦ let e' : p x ≡ true = subst (λ y. p y ≡ true) (sym (==→≡ x d same)) e in ground arith
  | inr other ↦ ground (arith, kept p xs d (ground arith) e)
]

no_conflict :
    (busy visible : List ℕ) (row : Task) (devices : List ℕ) (device : ℕ)
    → is_empty (
        sort (
          filter
            (λ d. not row.allow_external_busy && contains d busy || not (contains d visible))
            devices))
      ≡ true
    → contains device devices ≡ true
    → (not row.allow_external_busy && contains device busy || not (contains device visible)) ≡ false
no_conflict busy visible row devices device e m =
    let p = λ (d : ℕ). not row.allow_external_busy && contains d busy || not (contains d visible) in
    elim (Bool-cases (p device)) [
      | inr fine ↦ fine
      | inl bad ↦ absurd (
          empty_contains (sort (filter p devices)) device e
            (contains-sort device (filter p devices) ∙ kept p devices device m bad))
    ]

known_clear :
    (observed : Option Observation) (row : Task) (device : ℕ) (b v : Option (List ℕ))
    → busy_set observed ≡ b
    → visible_set observed ≡ v
    → is_unknown b v ≡ false
    → is_empty (release_conflicts b v row) ≡ true
    → contains device (load_devices row.granted_devices) ≡ true
    → DeviceClear observed row device
unfolding release_conflicts
known_clear observed row device none v eb ev known clear m = absurd (cc known)
known_clear observed row device (some busy) none eb ev known clear m = absurd (cc known)
known_clear observed row device (some busy) (some visible) eb ev known clear m =
    let fine = no_conflict busy visible row (load_devices row.granted_devices) device clear m in
    record {
      busy = busy;
      visible = visible;
      busy_known = eb;
      visible_known = ev;
      seen = ground arith;
      idle = ground arith;
    }

module _ (now : ℕ) (proc : Procfs) (id : String) (token : ℕ) (observed : Option Observation)
    (confirmed : Bool) (listening : Option Listening) (db : Db) (row row' : Task) (db' : Db) where
  -- If `release` answers that the task is released, and no completion of a managed shared run was
  -- confirmed, then the observation is usable and each device of the lease was seen as visible,
  -- and as idle where the task does not share busy devices.
  pub release_devices_clear :
      task_row id db ≡ ok row
      → release_body now proc id token observed confirmed listening db ≡ ok (done row', db')
      → managed_shared_completion row confirmed ≡ false
      → (device : ℕ) → contains device (load_devices row.granted_devices) ≡ true
      → DeviceClear observed row device
  unfolding release_blocked
  release_devices_clear found e plain device m =
      let u = unblocked now proc id token observed confirmed listening db row found e in
      let held : is_empty (load_devices row.granted_devices) ≡ false =
        nonempty (load_devices row.granted_devices) device m in
      known_clear observed row device (busy_set observed) (visible_set observed) refl refl
        (ground arith) (ground arith) m
