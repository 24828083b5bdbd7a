-- ===== src/Host/Ids/Parsed.antt =====
-- What `parse_devices` of vaws_coordinator/host/vaws_npu_coordination.py returns.
use vaws_coordinator.Prelude.{
  ℕ, ◌+◌, Bool, true, false, Option, some, ◌≡◌, refl, sym, ◌∙◌, subst, ◌⊎◌, inl, inr, List, [], ◌∷◌,
  ◌++◌, ==-comm, nat_eq, ==→≡, arith, Bool-cases, length, length-append, contains, contains-append,
  distinct, sort, IsSorted, sort-IsSorted, contains-sort, distinct-sort, length-sort, In, here,
  there, eq_of_some,
}
use vaws_coordinator.Prelude.Int.{pos, negsuc}
use vaws_coordinator.Prelude.Outcome.{ok}
use vaws_coordinator.Host.Result.{Ensures, Ensures-ok, Ensures-err, Ensures-if, Ensures-bind}
use vaws_coordinator.Host.Ids.{
  DeviceToken, blank, malformed, integer, collect_devices, sorted_devices, parse_devices,
}

-- The devices that were collected: distinct, one for each item, and each one named.
pub record Collected (before : List ℕ) (items : List DeviceToken) (devices : List ℕ) : Type 0 where
  pub apart : distinct before ≡ true → distinct devices ≡ true
  pub count : length devices ≡ length before + length items
  pub named :
      (d : ℕ) → contains d devices ≡ true → (contains d before ≡ true) ⊎ In (integer (pos d)) items

distinct-append_one :
    (n : ℕ) (xs : List ℕ)
    → contains n xs ≡ false
    → distinct xs ≡ true
    → distinct (xs ++ n ∷ []) ≡ true
distinct-append_one n [] e h = refl
distinct-append_one n (x ∷ xs) e h =
    ground (arith, distinct-append_one n xs, contains-append x xs (n ∷ []), ==-comm n x)

collect_devices-Collected :
    (before : List ℕ) (items : List DeviceToken)
    → Ensures (Collected before items) (collect_devices before items)
unfolding collect_devices
collect_devices-Collected before [] =
    Ensures-ok before (record { apart = λ h. h; count = omega arith; named = λ d h. inl h })
collect_devices-Collected before (blank ∷ rest) = Ensures-err _
collect_devices-Collected before (malformed ∷ rest) = Ensures-err _
collect_devices-Collected before (integer (negsuc n) ∷ rest) = Ensures-err _
collect_devices-Collected before (integer (pos n) ∷ rest) =
    Ensures-if (contains n before) (λ _. Ensures-err _)
      (λ new. record {
        at = λ devices e.
            let h = (collect_devices-Collected (before ++ n ∷ []) rest).at devices e in
            record {
              apart = λ one. h.apart (distinct-append_one n before new one);
              count = omega (arith, h.count, length-append before (n ∷ []));
              named = λ d found. elim (h.named d found) [
                | inr i ↦ inr (there i)
                | inl either ↦ elim (Bool-cases (contains d before)) [
                  | inl old ↦ inl old
                  | inr fresh ↦
                      let same : n ≡ d =
                        ==→≡ n d (ground (arith, contains-append d before (n ∷ []))) in
                      inr (subst (λ x. In (integer (pos x)) (integer (pos n) ∷ rest)) same here)
                ]
              ];
            };
      })

abbrev Exact : List DeviceToken → List ℕ → Type 0
Exact items devices =
    IsSorted devices
    × (distinct devices ≡ true)
    × (length devices ≡ length items)
    × ((d : ℕ) → contains d devices ≡ true → In (integer (pos d)) items)

Collected-Exact :
    (items : List DeviceToken) (devices : List ℕ)
    → Collected [] items devices
    → Exact items (sort devices)
Collected-Exact items devices h = (
  sort-IsSorted devices,
  distinct-sort devices ∙ h.apart refl,
  omega (arith, length-sort devices, h.count),
  λ d found. elim (h.named d (sym (contains-sort d devices) ∙ found)) [
    | inl none_before ↦ absurd (ground arith)
    | inr i ↦ i
  ],
)

sorted_devices-Exact :
    (items : List DeviceToken) (found : List ℕ)
    → Collected [] items found
    → Ensures
        (λ (o : Option (List ℕ)). (devices : List ℕ) → o ≡ some devices → Exact items devices)
        (sorted_devices found)
unfolding sorted_devices
sorted_devices-Exact items [] h = Ensures-err _
sorted_devices-Exact items (d ∷ ds) h =
    Ensures-ok _
      (λ devices e. subst (Exact items) (eq_of_some e) (Collected-Exact items (d ∷ ds) h))

-- The devices that are parsed from items are sorted and distinct, as many as the items, and each of
-- them is one of the items.
pub parse_devices_exact :
    (items : List DeviceToken) (allow_none : Bool) (devices : List ℕ)
    → parse_devices (some items) allow_none ≡ ok (some devices)
    → IsSorted devices
      × (distinct devices ≡ true)
      × (length devices ≡ length items)
      × ((d : ℕ) → contains d devices ≡ true → In (integer (pos d)) items)
unfolding parse_devices
parse_devices_exact items allow_none devices e =
    (Ensures-bind {P = λ o. (ds : List ℕ) → o ≡ some ds → Exact items ds} (collect_devices [] items)
        (λ found seen.
          sorted_devices-Exact items found ((collect_devices-Collected [] items).at found seen))).at
      (some devices) e devices refl
