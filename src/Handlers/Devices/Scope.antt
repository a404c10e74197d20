-- ===== src/Handlers/Devices/Scope.antt =====
-- The devices that the list of src/main.cpp shows to the owner of a token.
use iot_dev_sys.Common.{
  ◌≡◌, ◌↔◌, ◌⊎◌, refl, sym, ap, ◌∙◌, Bool, true, false, List, [], ◌∷◌, some, inl, inr, if_both,
  Bool-cases, Option-cases, ◌==◌, text_iff, any, select, if◌then◌else◌,
}
use iot_dev_sys.Common.Int.{ℤ}
use iot_dev_sys.Types.Device.{Device}
use iot_dev_sys.Types.Org.{OrgInfo}
use iot_dev_sys.Types.Account.{TokenPayload}
use iot_dev_sys.Org.{OrgManager, get_org}
use iot_dev_sys.Account.{AccountManager, refused, granted}
use iot_dev_sys.Device.{DeviceManager, list_all_devices}
use iot_dev_sys.Api.{HttpRequest}
use iot_dev_sys.Handlers.Auth.{extract_auth}
use iot_dev_sys.Handlers.Devices.{tenants_of, has_tenant, shown_devices}

abbrev pub IsIn : {A : Type 0} → A → List A → Type 0
IsIn x [] = ⊥
IsIn x (y ∷ ys) = (x ≡ y) ⊎ IsIn x ys

-- An organization of the scope has the device's tenant.
abbrev pub InScope : OrgManager → List ℤ → Device → Type 0
InScope orgs scope d =
    (oid : ℤ) × (o : OrgInfo) × IsIn oid scope
    × (get_org oid orgs ≡ some o)
    × (o.tenant_id ≡ d.tenant_id)

later :
    (orgs : OrgManager) (i : ℤ) (scope : List ℤ) (d : Device)
    → InScope orgs scope d
    → InScope orgs (i ∷ scope) d
later orgs i scope d (oid, o, m, g, e) = (oid, o, inr m, g, e)

has_tenant_hit :
    (orgs : OrgManager) (i : ℤ) (scope : List ℤ) (d : Device) (o : OrgInfo)
    → get_org i orgs ≡ some o
    → has_tenant (tenants_of orgs (i ∷ scope)) d
      ≡ (if o.tenant_id == d.tenant_id then true else has_tenant (tenants_of orgs scope) d)
unfolding tenants_of any
has_tenant_hit orgs i scope d o hit = rw (hit, tenants_of) refl

has_tenant-InScope :
    (orgs : OrgManager) (scope : List ℤ) (d : Device)
    → has_tenant (tenants_of orgs scope) d ≡ true
    → InScope orgs scope d
unfolding tenants_of any
has_tenant-InScope orgs [] d h = cc
has_tenant-InScope orgs (i ∷ scope) d h = elim (Option-cases (get_org i orgs)) [
  | inl miss ↦ later orgs i scope d (has_tenant-InScope orgs scope d (rw (miss, tenants_of) at h))
  | inr (o, hit) ↦ elim (Bool-cases (o.tenant_id == d.tenant_id)) [
    | inl same ↦ (i, o, inl refl, hit, (text_iff o.tenant_id d.tenant_id).0 same)
    | inr other ↦ later orgs i scope d (
        has_tenant-InScope orgs scope d
          (rw other at (sym (has_tenant_hit orgs i scope d o hit) ∙ h)))
  ]
]

InScope-has_tenant :
    (orgs : OrgManager) (scope : List ℤ) (d : Device) (oid : ℤ) (o : OrgInfo)
    → IsIn oid scope
    → get_org oid orgs ≡ some o
    → o.tenant_id ≡ d.tenant_id
    → has_tenant (tenants_of orgs scope) d ≡ true
unfolding tenants_of any
InScope-has_tenant orgs [] d oid o m g e = absurd m
InScope-has_tenant orgs (i ∷ scope) d oid o (inl same) g e =
    has_tenant_hit orgs i scope d o (ap (λ k. get_org k orgs) (sym same) ∙ g)
    ∙ rw ((text_iff o.tenant_id d.tenant_id).1 e) refl
InScope-has_tenant orgs (i ∷ scope) d oid o (inr m) g e = elim (Option-cases (get_org i orgs)) [
  | inl miss ↦ rw (miss, tenants_of) (InScope-has_tenant orgs scope d oid o m g e)
  | inr (q, hit) ↦
      has_tenant_hit orgs i scope d q hit
      ∙ if_both (λ (b : Bool). b ≡ true) (q.tenant_id == d.tenant_id) true _ refl
          (InScope-has_tenant orgs scope d oid o m g e)
]

module _ {A : Type 0} (p : A → Bool) where
  IsIn-select : (x : A) (xs : List A) → IsIn x (select p xs) → (p x ≡ true) × IsIn x xs
  unfolding select
  IsIn-select x [] m = absurd m
  IsIn-select x (y ∷ ys) m = elim (Bool-cases (p y)) [
    | inl hit ↦
        (let n : (x ≡ y) ⊎ IsIn x (select p ys) = rw hit at m in
          elim n [
            | inl e ↦ (ap p e ∙ hit, inl e)
            | inr k ↦ (let r = IsIn-select x ys k in (r.0, inr r.1))
          ])
    | inr miss ↦ (let r = IsIn-select x ys (rw miss at m) in (r.0, inr r.1))
  ]

  select-IsIn : (x : A) (xs : List A) → p x ≡ true → IsIn x xs → IsIn x (select p xs)
  unfolding select
  select-IsIn x [] h m = absurd m
  select-IsIn x (y ∷ ys) h (inl e) = rw (sym (ap p e) ∙ h) (inl e)
  select-IsIn x (y ∷ ys) h (inr m) =
      if_both (λ (l : List A). IsIn x l) (p y) (y ∷ select p ys) (select p ys)
        (inr (select-IsIn x ys h m)) (select-IsIn x ys h m)

-- With a valid token of an account that is no super admin, the list shows exactly those devices whose
-- tenant is the tenant of an organization in the account's scope.
pub shown_devices-InScope :
    (orgs : OrgManager) (accounts : AccountManager) (now : ℤ) (req : HttpRequest)
    (s : DeviceManager) (tp : TokenPayload)
    → extract_auth orgs now req accounts ≡ granted tp
    → (tp.role_code == "super_admin") ≡ false
    → (ds : List Device) × (shown_devices orgs accounts now req s ≡ some ds)
      × ((d : Device) → IsIn d ds ↔ (IsIn d (list_all_devices s) × InScope orgs tp.org_scope d))
unfolding shown_devices
shown_devices-InScope orgs accounts now req s tp auth role =
    let p = has_tenant (tenants_of orgs tp.org_scope) in
    let all : List Device = list_all_devices s in
    (
      select p all,
      rw auth (rw role refl),
      λ d. (
        λ m. let r = IsIn-select p d all m in (r.1, has_tenant-InScope orgs tp.org_scope d r.0),
        λ w.
            select-IsIn p d all
              (InScope-has_tenant orgs tp.org_scope d w.1.0 w.1.1 w.1.2 w.1.3 w.1.4) w.0,
      ),
    )

-- Without a valid token every device is shown.
shown_devices_all :
    (orgs : OrgManager) (accounts : AccountManager) (now : ℤ) (req : HttpRequest)
    (s : DeviceManager)
    → extract_auth orgs now req accounts ≡ refused
    → shown_devices orgs accounts now req s ≡ some (list_all_devices s)
unfolding shown_devices
shown_devices_all orgs accounts now req s auth = rw auth refl
