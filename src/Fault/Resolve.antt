-- ===== src/Fault/Resolve.antt =====
-- What resolving and reassigning faults in src/app/fault/fault_detector.cpp changes.
use mathlib.Core.List.{Perm}
use iot_dev_sys.Common.{
  ◌≡◌, ◌⊎◌, refl, ap, subst, String, true, ◌||◌, List, [], ◌∷◌, none, some, arith, ◌==◌, text_self,
  if◌then◌else◌, inl, inr, Option-cases, any, All, find_if, erase_if, erase_if-perm, find_if-passes,
  find_if-concat, erase_if-concat,
}
use iot_dev_sys.Status.{ok, order_not_found}
use iot_dev_sys.Types.Fault.{FaultInfo, FaultCode}
use iot_dev_sys.Fault.{
  FaultManager, add_fault, resolve_fault, is_fault, reassign, reassign_unknown_devices,
}

-- An answer OK takes exactly one fault of that tenant, device and code out of the active ones, the
-- first, and keeps the others; any other answer means that there is none, and changes nothing.
resolve_fault_lem :
    (t d : String) (c : FaultCode) (s : FaultManager)
    → (((resolve_fault t d c s).1 ≡ order_not_found)
        × ((resolve_fault t d c s).0 ≡ s)
        × (find_if (is_fault t d c) s.active_faults ≡ none))
      ⊎ ((f : FaultInfo) × ((resolve_fault t d c s).1 ≡ ok)
          × (is_fault t d c f ≡ true)
          × Perm s.active_faults (f ∷ (resolve_fault t d c s).0.active_faults))
unfolding resolve_fault
resolve_fault_lem t d c s = elim (Option-cases (find_if (is_fault t d c) s.active_faults)) [
  | inl miss ↦ inl (ground arith, ground arith, miss)
  | inr (f, hit) ↦ inr (
    f,
    ground arith,
    find_if-passes (is_fault t d c) s.active_faults hit,
    subst (Perm s.active_faults) (ap (λ x. f ∷ x) (left f hit))
        (erase_if-perm (is_fault t d c) s.active_faults f hit),
  )
]
  where
    left :
        (f : FaultInfo)
        → find_if (is_fault t d c) s.active_faults ≡ some f
        → erase_if (is_fault t d c) s.active_faults ≡ (resolve_fault t d c s).0.active_faults
    left f hit = ground arith

own_fault : (f : FaultInfo) → is_fault f.tenant_id f.device_id f.code f ≡ true
own_fault f = ground (arith, text_self f.tenant_id, text_self f.device_id)

-- A fault whose tenant, device and code had no active fault before is resolved by one call after it
-- was added, and the manager is then as it was.
resolve_fault-add_fault :
    (f : FaultInfo) (s : FaultManager)
    → find_if (is_fault f.tenant_id f.device_id f.code) s.active_faults ≡ none
    → resolve_fault f.tenant_id f.device_id f.code (add_fault f s).state ≡ (s, ok)
unfolding resolve_fault add_fault
resolve_fault-add_fault f s fresh = ground (
  arith,
  find_if-concat (is_fault f.tenant_id f.device_id f.code) s.active_faults f fresh (own_fault f),
  erase_if-concat (is_fault f.tenant_id f.device_id f.code) s.active_faults f fresh (own_fault f),
)

-- The devices of the faults after the reassignment are valid or the target.
abbrev pub IsKnown : List String → String → FaultInfo → Type 0
IsKnown valid_ids target f = (any (λ i. i == f.device_id) valid_ids || f.device_id == target) ≡ true

reassigned-IsKnown :
    (valid_ids : List String) (target : String) (f : FaultInfo)
    → IsKnown valid_ids target
        (if any (λ i. i == f.device_id) valid_ids then f else record f { device_id = target })
reassigned-IsKnown valid_ids target f = ground (arith, text_self target)

reassign-IsKnown :
    (valid_ids : List String) (target : String) (fs : List FaultInfo)
    → All (IsKnown valid_ids target) (reassign valid_ids target fs)
unfolding reassign
reassign-IsKnown valid_ids target [] = tt
reassign-IsKnown valid_ids target (f ∷ fs) =
    (reassigned-IsKnown valid_ids target f, reassign-IsKnown valid_ids target fs)

reassign-keeps :
    (valid_ids : List String) (target : String) (fs : List FaultInfo)
    → All (λ f. any (λ i. i == f.device_id) valid_ids ≡ true) fs
    → reassign valid_ids target fs ≡ fs
unfolding reassign
reassign-keeps valid_ids target [] h = refl
reassign-keeps valid_ids target (f ∷ fs) h =
    ground (arith, reassign-keeps valid_ids target fs h.1, h.0)

-- After a reassignment every active fault is of a valid device or of the target.
reassign_unknown_devices-IsKnown :
    (valid_ids : List String) (target : String) (s : FaultManager)
    → All (IsKnown valid_ids target) (reassign_unknown_devices valid_ids target s).active_faults
unfolding reassign_unknown_devices
reassign_unknown_devices-IsKnown valid_ids target s =
    reassign-IsKnown valid_ids target s.active_faults

-- A reassignment changes nothing if every active fault is of a valid device.
pub reassign_unknown_devices-keeps :
    (valid_ids : List String) (target : String) (s : FaultManager)
    → All (λ f. any (λ i. i == f.device_id) valid_ids ≡ true) s.active_faults
    → reassign_unknown_devices valid_ids target s ≡ s
unfolding reassign_unknown_devices
reassign_unknown_devices-keeps valid_ids target s h =
    ap (λ fs. record s { active_faults = fs }) (reassign-keeps valid_ids target s.active_faults h)
