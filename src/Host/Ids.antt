-- ===== src/Host/Ids.antt =====
-- Input checks on identifiers, devices and port ranges (`require_safe_id`, `parse_devices`,
-- `parse_port_range`, `user_container_name`, `container_ssh_task_id` of
-- vaws_coordinator/host/vaws_npu_coordination.py).
pub mod Parsed
use Prim.Native.Char.{code}
use Prim.Native.String.{◌++◌ as text_append}
use vaws_coordinator.Prelude.{
  ℕ, String, Bool, false, Option, none, some, List, [], ◌∷◌, ◌++◌, ◌&&◌, ◌||◌, leb, ltb, ◌==◌,
  nat_eq, if◌then◌else◌, all_of, length, contains, sort,
}
use vaws_coordinator.Prelude.Int.{ℤ, pos, negsuc}
use vaws_coordinator.Host.Result.{
  Result, ok, err, invalid_id, invalid_devices, invalid_port_range, invalid_ttl, guard, ◌>>◌, ◌>>=◌,
}

abbrev pub codes : String → List ℕ
codes String.[] = []
codes (String.◌∷◌ c s) = code c ∷ codes s

abbrev pub is_alphanumeric : ℕ → Bool
is_alphanumeric c = leb b'A' c && leb c b'Z' || leb b'a' c && leb c b'z' || leb b'0' c && leb c b'9'

abbrev pub is_id_code : ℕ → Bool
is_id_code c = is_alphanumeric c || c == b'_' || c == b'.' || c == b':' || c == b'-'

-- SAFE_ID_RE.fullmatch: ^[A-Za-z0-9][A-Za-z0-9_.:-]{2,127}$
matches_safe_id : List ℕ → Bool
matches_safe_id [] = false
matches_safe_id (c ∷ rest) =
    is_alphanumeric c && all_of is_id_code rest && leb 2 (length rest) && leb (length rest) 127

unfoldable pub is_safe_id : String → Bool
unfolding matches_safe_id
is_safe_id value = matches_safe_id (codes value)

unfoldable pub require_safe_id : String → Result String
unfolding is_safe_id
require_safe_id value = if is_safe_id value then ok value else err invalid_id

unfoldable pub user_container_name : String → Result String
unfolding require_safe_id
user_container_name user = do id ← require_safe_id user; ok (text_append "vaws-" id)

unfoldable pub container_ssh_task_id : String → Result String
unfolding require_safe_id
container_ssh_task_id user = do id ← require_safe_id user; ok (text_append "ssh." id)

-- The checks of `acquire`, `preflight` and `heartbeat` before their transactions.
unfoldable pub checked_ttl : String → ℕ → Result String
unfolding require_safe_id
checked_ttl id ttl = do task_id ← require_safe_id id; guard (leb 1 ttl) invalid_ttl; ok task_id

-- What `int(str(raw).strip(), 10)` makes of one item: an empty text, no integer, or an integer.
pub data DeviceToken : Type 0 where
  blank : DeviceToken
  malformed : DeviceToken
  integer : ℤ → DeviceToken

-- The loop, with `seen` and `devices` as one list: each device is added to both.
unfoldable pub collect_devices : List ℕ → List DeviceToken → Result (List ℕ)
collect_devices devices [] = ok devices
collect_devices devices (blank ∷ rest) = err invalid_devices
collect_devices devices (malformed ∷ rest) = err invalid_devices
collect_devices devices (integer (negsuc n) ∷ rest) = err invalid_devices
collect_devices devices (integer (pos n) ∷ rest) =
    let added = collect_devices (devices ++ n ∷ []) rest in
    if contains n devices then err invalid_devices else added

unfoldable pub sorted_devices : List ℕ → Result (Option (List ℕ))
sorted_devices [] = err invalid_devices
sorted_devices (d ∷ ds) = ok (some (sort (d ∷ ds)))

-- The items of a list, or of a text split at its commas; `none` is a null value.
unfoldable pub parse_devices : Option (List DeviceToken) → Bool → Result (Option (List ℕ))
unfolding collect_devices sorted_devices
parse_devices none allow_none = if allow_none then ok none else err invalid_devices
parse_devices (some items) allow_none = do
  devices ← collect_devices [] items
  sorted_devices devices

-- START:END after `partition` and `int`: `none` is a missing separator or a text that is no integer.
unfoldable pub parse_port_range : Option (ℤ × ℤ) → Result (ℕ × ℕ)
parse_port_range none = err invalid_port_range
parse_port_range (some (pos start, pos end)) =
    if leb start 0 || leb end 0 || ltb end start || ltb 65535 end
    then err invalid_port_range
    else ok (start, end)
parse_port_range (some (_, _)) = err invalid_port_range
