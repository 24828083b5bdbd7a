-- ===== src/Host/Probe/Confirmed.antt =====
-- What `_confirmed_free_probe` of vaws_coordinator/host/vaws_npu_coordination.py confirms.
use vaws_coordinator.Prelude.{
  ℕ, true, false, ◌≡◌, sym, ◌∙◌, subst, inl, inr, some, List, [], ◌∷◌, ◌++◌, arith, Bool-cases,
  Option-cases, eq_of_some, nat_eq, contains, contains-append, contains-filter, contains-sort,
  intersect, minus, In, here, there, all_of, and-true, sort, ◌==◌, ==→≡,
}
use vaws_coordinator.Host.State.{Observation}
use vaws_coordinator.Host.Result.{Result, ok, Result-cases}
use vaws_coordinator.Host.Probe.{
  as_set, common_devices, combined_busy, confirmed_free_probe, is_ok_sample,
}

common-In :
    (d : ℕ) (devices : List ℕ) (samples : List Observation)
    → contains d (common_devices devices samples) ≡ true
    → (contains d devices ≡ true) × ((s : Observation) → In s samples → contains d s.devices ≡ true)
unfolding common_devices
common-In d devices [] m = (m, λ s i. elim i [ ])
common-In d devices (item ∷ rest) m =
    let (m', others) = common-In d (intersect devices item.devices) rest m in
    let (named, kept) = contains-filter d (λ a. contains a item.devices) devices m' in
    (kept, λ s i. either s named others i)
  where
    either :
        {item : Observation} {rest : List Observation} (s : Observation)
        → contains d item.devices ≡ true
        → ((s : Observation) → In s rest → contains d s.devices ≡ true)
        → In s (item ∷ rest)
        → contains d s.devices ≡ true
    either s named others here = named
    either s named others (there i) = others s i

contains-minus :
    (d : ℕ) (xs ys : List ℕ)
    → contains d xs ≡ true
    → contains d ys ≡ false
    → contains d (minus xs ys) ≡ true
contains-minus d [] ys m n = absurd (cc m)
contains-minus d (x ∷ xs) ys m n = elim (Bool-cases (x == d)) [
  | inl same ↦ ground (arith, ==→≡ x d same)
  | inr other ↦ ground (arith, contains-minus d xs ys (ground arith) n)
]

-- The reading of one sample that found `d` idle.
abbrev pub IdleIn : ℕ → Observation → Type 0
IdleIn d s = (busy : List ℕ) × (s.busy ≡ some busy) × (contains d busy ≡ false)

either_idle :
    (d : ℕ) {item : Observation} {rest : List Observation} (s : Observation)
    → IdleIn d item
    → ((s : Observation) → In s rest → IdleIn d s)
    → In s (item ∷ rest)
    → IdleIn d s
either_idle d s idle others here = idle
either_idle d s idle others (there i) = others s i

combined-idle :
    (d : ℕ) (devices : List ℕ) (samples : List Observation) (busy : List ℕ)
    → combined_busy devices samples ≡ ok busy
    → contains d busy ≡ false
    → (contains d devices ≡ false) × ((s : Observation) → In s samples → IdleIn d s)
unfolding combined_busy
combined-idle d devices [] busy e n =
    (subst (λ xs. contains d xs ≡ false) (cc e) n, λ s i. elim i [ ])
combined-idle d devices (item ∷ rest) busy e n = elim (Option-cases item.busy) [
  | inl null ↦ absurd (ground arith)
  | inr (b, found) ↦
      let (idle, others) =
        combined-idle d (devices ++ minus b devices) rest busy (ground arith) n in
      let parts = contains-append d devices (minus b devices) in
      let before : contains d devices ≡ false = ground arith in
      let here_idle : contains d b ≡ false = elim (Bool-cases (contains d b)) [
        | inl m ↦ absurd (ground (arith, contains-minus d b devices m before))
        | inr m ↦ m
      ] in
      (before, λ s i. either_idle d s (b, found, here_idle) others i)
]

all_ok-In :
    (samples : List Observation)
    → all_of is_ok_sample samples ≡ true
    → (s : Observation) → In s samples
    → s.is_ok ≡ true
all_ok-In [] e s i = elim i [ ]
all_ok-In (x ∷ xs) e s here = (and-true _ _ e).0
all_ok-In (x ∷ xs) e s (there i) = all_ok-In xs (and-true _ _ e).1 s i

-- The combined observation of a release confirmation shows a device as visible and idle only
-- where every sample succeeded, saw the device and found it idle.
pub confirmed_free :
    (samples : List Observation) (o : Observation) (d : ℕ) (busy : List ℕ)
    → confirmed_free_probe samples ≡ ok o
    → o.is_ok ≡ true
    → contains d o.devices ≡ true
    → o.busy ≡ some busy
    → contains d busy ≡ false
    → (s : Observation) → In s samples
    → (s.is_ok ≡ true) × (contains d s.devices ≡ true) × IdleIn d s
unfolding confirmed_free_probe
confirmed_free [] o d busy e good seen b idle s i = elim i [ ]
confirmed_free (first ∷ rest) o d busy e good seen b idle s i =
    elim (Bool-cases (all_of is_ok_sample (first ∷ rest))) [
      | inr failed ↦ absurd (ground arith)
      | inl fine ↦ elim (Result-cases (combined_busy [] (first ∷ rest))) [
        | inr (f, null) ↦ absurd (ground arith)
        | inl (found, combined) ↦
            let common = common_devices (as_set first.devices) (first ∷ rest) in
            let agreed : Result Observation =
              ok (record { is_ok = true; devices = sort common; busy = some found }) in
            let same : agreed ≡ ok o = ground arith in
            let devices : sort common ≡ o.devices = cc same in
            let busies : found ≡ busy = eq_of_some (cc (same, b)) in
            (
              all_ok-In (first ∷ rest) fine s i,
              (common-In d (as_set first.devices) (first ∷ rest) (
                    sym (contains-sort d common)
                    ∙ subst (λ xs. contains d xs ≡ true) (sym devices) seen)).1
                  s i,
              (combined-idle d [] (first ∷ rest) found combined
                    (subst (λ xs. contains d xs ≡ false) (sym busies) idle)).1
                  s i,
            )
      ]
    ]
