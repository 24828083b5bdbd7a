-- ===== src/Placement/Choice.antt =====
-- What `select_runtimes` of vaws_coordinator/placement.py chooses.
use vaws_coordinator.Prelude.{
  String, Bool, true, false, ◌≡◌, refl, sym, subst, inl, inr, some, List, [], ◌∷◌, arith, map, ◌&&◌,
  ◌||◌, not, ◌==◌, string_eq, filter, find, find-In, In, contains, distinct, Option-cases,
  eq_of_some, ==→≡, ==-refl, Bool-cases,
}
use vaws_coordinator.Placement.{
  Runtime, Environment, Role, add_host, host_key, runtime_matches, distinct_hosts_required,
  is_ready, is_match, choose_runtimes, select_runtimes,
}

-- Each role has a row, ready and matching, in the order of the roles.
abbrev pub Serves : Environment → List Runtime → List Role → List Runtime → Type 0
Serves environment ready [] [] = Unit
Serves environment ready (role ∷ roles) (row ∷ rows) =
    (In row ready × (runtime_matches row environment role ≡ true))
    × Serves environment ready roles rows
Serves environment ready _ _ = ⊥

-- No id of `rows` is in `taken`, and none comes twice.
abbrev pub is_fresh : List String → List String → Bool
is_fresh taken [] = true
is_fresh taken (x ∷ xs) = not (contains x taken) && is_fresh (x ∷ taken) xs

-- No known host of `rows` is in `seen_hosts`, and none comes twice.
abbrev pub are_apart : List String → List Runtime → Bool
are_apart seen_hosts [] = true
are_apart seen_hosts (r ∷ rs) =
    (host_key r == "" || not (contains (host_key r) seen_hosts))
    && are_apart (add_host r seen_hosts) rs

module _ (environment : Environment) (require_distinct_hosts : Bool) (ready : List Runtime) where
  choose-Serves :
      (chosen seen_hosts : List String) (roles : List Role) (rows : List Runtime)
      → choose_runtimes environment require_distinct_hosts ready chosen seen_hosts roles ≡ some rows
      → Serves environment ready roles rows
        × (is_fresh chosen (map (λ r. r.runtime_id) rows) ≡ true)
        × ((not require_distinct_hosts || are_apart seen_hosts rows) ≡ true)
  unfolding choose_runtimes
  choose-Serves chosen seen_hosts [] rows e =
      subst
        (λ rows.
          Serves environment ready [] rows
          × (is_fresh chosen (map (λ (r : Runtime). r.runtime_id) rows) ≡ true)
          × ((not require_distinct_hosts || are_apart seen_hosts rows) ≡ true))
        (eq_of_some e) (tt, refl, ground arith)
  choose-Serves chosen seen_hosts (role ∷ roles) rows e =
      let p = is_match environment require_distinct_hosts chosen seen_hosts role in
      elim (Option-cases (find p ready)) [
        | inl missing ↦ absurd (ground arith)
        | inr (row, found) ↦
            let (i, fits) = find-In p ready found in
            elim (Option-cases (
              choose_runtimes environment require_distinct_hosts ready (row.runtime_id ∷ chosen)
                (add_host row seen_hosts) roles)) [
                  | inl stuck ↦ absurd (ground arith)
                  | inr (rest, chose) ↦
                      let (serves, fresh, apart) =
                        choose-Serves (row.runtime_id ∷ chosen) (add_host row seen_hosts) roles rest
                          chose in
                      let same : row ∷ rest ≡ rows = ground arith in
                      subst
                        (λ rows.
                          Serves environment ready (role ∷ roles) rows
                          × (is_fresh chosen (map (λ (r : Runtime). r.runtime_id) rows) ≡ true)
                          × ((not require_distinct_hosts || are_apart seen_hosts rows) ≡ true))
                        same
                        (
                          ((i, unfold is_match in ground arith), serves),
                          unfold is_match in ground arith,
                          unfold is_match in ground arith,
                        )
                ]
      ]

absent_of_fresh :
    (y : String) (taken xs : List String)
    → contains y taken ≡ true
    → is_fresh taken xs ≡ true
    → contains y xs ≡ false
absent_of_fresh y taken [] m e = refl
absent_of_fresh y taken (x ∷ xs) m e = elim (Bool-cases (x == y)) [
  | inl same ↦
      let m' : contains x taken ≡ true =
        subst (λ z. contains z taken ≡ true) (sym (==→≡ x y same)) m in
      absurd (ground arith)
  | inr other ↦ ground (arith, absent_of_fresh y (x ∷ taken) xs (ground arith) (ground arith))
]

distinct_of_fresh : (taken xs : List String) → is_fresh taken xs ≡ true → distinct xs ≡ true
distinct_of_fresh taken [] e = refl
distinct_of_fresh taken (x ∷ xs) e = ground (
  arith,
  absent_of_fresh x (x ∷ taken) xs (ground (arith, ==-refl x)) (ground arith),
  distinct_of_fresh (x ∷ taken) xs (ground arith),
)

-- A choice of prepared roots has one for each role, in the order of the roles: a root of the
-- catalog that is ready, of the user, not draining and not busy, and that matches the environment
-- and the role. No root is chosen twice, and where distinct hosts are required, no known host is.
pub select_runtimes-Serves :
    (catalog : List Runtime) (user : String) (roles : List Role) (environment : Environment)
    (busy : List String) (explicit : Bool) (rows : List Runtime)
    → select_runtimes catalog user roles environment busy explicit ≡ some rows
    → Serves environment (filter (is_ready user busy) catalog) roles rows
      × (distinct (map (λ r. r.runtime_id) rows) ≡ true)
      × ((not (distinct_hosts_required roles explicit) || are_apart [] rows) ≡ true)
unfolding select_runtimes
select_runtimes-Serves catalog user roles environment busy explicit rows e =
    let (serves, fresh, apart) =
      choose-Serves environment (distinct_hosts_required roles explicit)
        (filter (is_ready user busy) catalog) [] [] roles rows e in
    (serves, distinct_of_fresh [] (map (λ (r : Runtime). r.runtime_id) rows) fresh, apart)
