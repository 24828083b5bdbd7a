-- ===== src/Host/Ledger/Selection.antt =====
-- The devices that a grant may take: those that nobody else leases.

use vaws_coordinator.Prelude.{
  ℕ, String, Bool, true, false, ◌≡◌, ◌≢◌, refl, sym, ◌∙◌, subst, Option, some, List, [], ◌∷◌, arith,
  ◌==◌, nat_eq, string_eq, option_eq, ==→≡, Bool-cases, inl, inr, eq_of_some, contains,
  contains-append, contains-filter, contains-take, contains_of_minus, contains-sort, sort, minus,
  length, ltb, value_or, ◌+◌, In, here, there,
}
use vaws_coordinator.Host.State.{Task, Hold, Db, Observation}
use vaws_coordinator.Host.Table.{busy_set, observed_devices, load_devices}
use vaws_coordinator.Host.Devices.{
  leased, leased_unless, reserved_devices, is_available, available_devices, select_granted_devices,
  all_present,
}
use vaws_coordinator.Host.Acquire.{task_available}

ne_test : (a b : String) → a ≢ b → (some a == some b) ≡ false
ne_test a b ne = elim (Bool-cases (a == b)) [ inl e ↦ absurd (ne (==→≡ a b e)) | inr e ↦ e ]

-- What another task leases is reserved.
pub contains-reserved_devices :
    (d : ℕ) (id : String) (u : Task) (ts : List Task)
    → In u ts
    → u.task_id ≢ id
    → contains d (leased u) ≡ true
    → contains d (reserved_devices ts (some id)) ≡ true
unfolding reserved_devices
contains-reserved_devices d id u [] i ne m = elim i [ ]
contains-reserved_devices d id u (t ∷ ts) here ne m = ground (
  arith,
  contains-append d (leased_unless (some id) t) (reserved_devices ts (some id)),
  ne_test t.task_id id ne,
)
contains-reserved_devices d id u (t ∷ ts) (there i) ne m = ground (
  arith,
  contains-append d (leased_unless (some id) t) (reserved_devices ts (some id)),
  contains-reserved_devices d id u ts i ne m,
)

not_reserved_of_available :
    (d : ℕ) (busy reserved : List ℕ) (holds : List Hold) (start end : ℕ) (shared : Bool)
    → is_available busy reserved holds start end shared d ≡ true
    → contains d reserved ≡ false
not_reserved_of_available d busy reserved holds start end shared h = ground arith

-- An available device is not reserved.
pub available-not_reserved :
    (d : ℕ) (db : Db) (observed : Option Observation) (exclude : Option String) (start end : ℕ)
    (shared : Bool)
    → contains d (available_devices db observed exclude start end shared) ≡ true
    → contains d (reserved_devices db.tasks exclude) ≡ false
unfolding available_devices
available-not_reserved d db observed exclude start end shared m =
    not_reserved_of_available d (value_or (busy_set observed) [])
      (reserved_devices db.tasks exclude) db.holds start end shared
      (contains-filter d _ (observed_devices observed) m).0

all_present-available :
    (d : ℕ) (requested available missing : List ℕ) {selected : List ℕ}
    → minus requested available ≡ missing
    → (all_present requested missing).0 ≡ some selected
    → contains d selected ≡ true
    → contains d available ≡ true
all_present-available d requested available [] none_missing e m =
    contains_of_minus d requested available none_missing
      (subst (λ xs. contains d xs ≡ true) (sym (eq_of_some e)) m)
all_present-available d requested available (x ∷ xs) some_missing e m = cc

-- A selection stays within what is available.
pub select-available :
    (d : ℕ) (requested : List ℕ) (count : ℕ) (available : List ℕ) {selected : List ℕ}
    → (select_granted_devices requested count available).0 ≡ some selected
    → contains d selected ≡ true
    → contains d available ≡ true
unfolding select_granted_devices
select-available d [] count available e m = elim (Bool-cases (ltb (length available) count)) [
  | inl short ↦ absurd (ground arith)
  | inr enough ↦
      let same = eq_of_some (rw enough at e) in
      sym (contains-sort d available)
      ∙ contains-take d count (sort available) (subst (λ xs. contains d xs ≡ true) (sym same) m)
]
select-available d (x ∷ xs) count available e m =
    all_present-available d (x ∷ xs) available (minus (x ∷ xs) available) refl e m

-- What is granted to a task is leased to no other.
pub selected-free :
    (d now : ℕ) (observed : Option Observation) (row : Task) (db : Db) {selected : List ℕ}
    → (select_granted_devices
        (load_devices row.requested_devices)
        row.requested_count
        (task_available now observed row db)).0
      ≡ some selected
    → contains d selected ≡ true
    → contains d (reserved_devices db.tasks (some row.task_id)) ≡ false
unfolding task_available
selected-free d now observed row db e m =
    let m' = select-available d _ _ (task_available now observed row db) e m in
    elim (Bool-cases (row.requested_count == 0)) [
      | inl none_wanted ↦ absurd (ground arith)
      | inr wanted ↦
          available-not_reserved d db observed (some row.task_id) now
            (now + row.estimated_duration_seconds) row.allow_external_busy (rw wanted at m')
    ]
