-- ===== src/Placement.antt =====
-- The choice of prepared roots: `distinct_hosts_required`, `host_key`, `runtime_matches` and
-- `select_runtimes` of vaws_coordinator/placement.py. A text that is absent is the empty text:
-- the code tests both by their truth. The reason for a gap (`_gap`) is left out.
pub mod Choice
use vaws_coordinator.Prelude.{
  ℕ, String, Bool, true, false, Option, none, some, List, [], ◌∷◌, map, ◌&&◌, ◌||◌, not, ltb, ◌==◌,
  string_eq, nat_eq, if◌then◌else◌, filter, find, contains, length,
}

-- The five texts that a row and its profile may state.
pub record Profile : Type 0 where
  pub recipe : String
  pub python_abi : String
  pub cann : String
  pub soc : String
  pub machine_type : String

pub record Runtime : Type 0 where
  pub runtime_id : String
  pub state : String
  pub user : String
  pub draining : Bool
  pub own : Profile
  pub profile : Profile
  pub host : String
  pub endpoint_host : String
  pub service_ports : List ℕ

pub record Environment : Type 0 where
  pub constraints : Profile
  pub image : String

-- `service_port` is 0 where it is absent.
pub record Role : Type 0 where
  pub host : String
  pub service_port : ℕ

-- a or b
abbrev pub or_text : String → String → String
or_text a b = if a == "" then b else a

unfoldable pub host_key : Runtime → String
host_key row = or_text row.host row.endpoint_host

-- A constraint that is absent, or that the row or its profile meets.
abbrev pub meets_constraint : String → String → String → Bool
meets_constraint wanted own profile = wanted == "" || or_text own profile == wanted

unfoldable pub runtime_matches : Runtime → Environment → Role → Bool
unfolding host_key
runtime_matches row environment role =
    let wanted = environment.constraints in
    meets_constraint (or_text wanted.recipe environment.image) row.own.recipe row.profile.recipe
    && meets_constraint wanted.python_abi row.own.python_abi row.profile.python_abi
    && meets_constraint wanted.cann row.own.cann row.profile.cann
    && meets_constraint wanted.soc row.own.soc row.profile.soc
    && meets_constraint wanted.machine_type row.own.machine_type row.profile.machine_type
    && (role.host == "" || host_key row == role.host)
    && (role.service_port == 0 || contains role.service_port row.service_ports)

-- The elements of a set, once each.
abbrev pub unique_texts : List String → List String
unique_texts [] = []
unique_texts (x ∷ xs) = let rest = unique_texts xs in if contains x xs then rest else x ∷ rest

-- `explicit` is `topology.distinct_hosts`.
unfoldable pub distinct_hosts_required : List Role → Bool → Bool
distinct_hosts_required roles explicit =
    explicit
    || ltb 1
        (length (unique_texts (filter (λ h. not (h == "")) (map (λ (r : Role). r.host) roles))))

unfoldable pub is_ready : String → List String → Runtime → Bool
is_ready user busy row =
    row.state == "ready"
    && row.user == user
    && not row.draining
    && not (contains row.runtime_id busy)

-- A known host is seen from now on.
abbrev pub add_host : Runtime → List String → List String
add_host row seen_hosts = if host_key row == "" then seen_hosts else host_key row ∷ seen_hosts

module _ (environment : Environment) (require_distinct_hosts : Bool) where
  -- A row that the inner loop does not pass over.
  unfoldable pub is_match : List String → List String → Role → Runtime → Bool
  unfolding runtime_matches host_key
  is_match chosen seen_hosts role row =
      not (contains row.runtime_id chosen)
      && runtime_matches row environment role
      && not
          (require_distinct_hosts && not (host_key row == "") && contains (host_key row) seen_hosts)

  -- The outer loop: what it appends to `chosen`, or nothing where a role has no match.
  unfoldable pub choose_runtimes :
      List Runtime → List String → List String → List Role → Option (List Runtime)
  unfolding is_match
  choose_runtimes ready chosen seen_hosts [] = some []
  choose_runtimes ready chosen seen_hosts (role ∷ roles) =
      elim (find (is_match chosen seen_hosts role) ready) [
        | none ↦ none
        | some row ↦
            elim (choose_runtimes ready (row.runtime_id ∷ chosen) (add_host row seen_hosts) roles) [
              | none ↦ none
              | some rows ↦ some (row ∷ rows)
            ]
      ]

-- The rows whose ids are returned, one for each role.
unfoldable pub select_runtimes :
    List Runtime → String → List Role → Environment → List String → Bool → Option (List Runtime)
unfolding is_ready distinct_hosts_required choose_runtimes
select_runtimes catalog user roles environment busy explicit =
    choose_runtimes environment (distinct_hosts_required roles explicit)
      (filter (is_ready user busy) catalog) [] [] roles
