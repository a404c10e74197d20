-- ===== src/Catalog/Typed.antt =====
-- The invariant of src/app/device/device_type_manager.cpp: no model without its type.
use iot_dev_sys.Common.{
  ◌≡◌, sym, subst, String, true, not, ◌||◌, List, [], ◌∷◌, some, ◌⊎◌, inl, inr, Bool-cases, if_both,
  is_empty, ◌==◌,
}
use iot_dev_sys.Status.{StatusCode}
use iot_dev_sys.Types.Activation.{DeviceTypeInfo, DeviceModelInfo}
use iot_dev_sys.Catalog.{
  Store, no_models, type_exists, model_exists, create_type, update_type, delete_type, create_model,
  update_model, delete_model,
}

pub data Call : Type 0 where
  add_type : DeviceTypeInfo → Call
  set_type : String → DeviceTypeInfo → Call
  drop_type : String → Call
  add_model : DeviceModelInfo → Call
  set_model : String → DeviceModelInfo → Call
  drop_model : String → Call

module _ {S : Type 0} (db : Store S) where
  unfoldable pub next : Call → S → S
  next (add_type info) s = (create_type db info s).0
  next (set_type c info) s = (update_type db c info s).0
  next (drop_type c) s = (delete_type db c s).0
  next (add_model info) s = (create_model db info s).0
  next (set_model c info) s = (update_model db c info s).0
  next (drop_model c) s = (delete_model db c s).0

  unfoldable pub run : List Call → S → S
  run [] s = s
  run (c ∷ cs) s = run cs (next c s)

  -- Every model that is found names a type that is found.
  unfoldable pub IsTyped : S → Type 0
  IsTyped s =
      (m : String) (x : DeviceModelInfo)
      → db.get_device_model m s ≡ some x
      → type_exists db x.type_code s ≡ true

  -- No type is taken away.
  abbrev pub KeepsTypes : S → S → Type 0
  KeepsTypes s r = (c : String) → type_exists db c s ≡ true → type_exists db c r ≡ true

  -- A model that is found afterwards has the type it had before.
  abbrev pub WasThere : S → DeviceModelInfo → Type 0
  WasThere s x =
      (m : String) × (y : DeviceModelInfo) × (db.get_device_model m s ≡ some y)
      × (y.type_code ≡ x.type_code)

  abbrev pub KeepsModels : S → S → Type 0
  KeepsModels s r =
      (m : String) (x : DeviceModelInfo) → db.get_device_model m r ≡ some x → WasThere s x

  abbrev pub WritesModel : DeviceModelInfo → S → S → Type 0
  WritesModel info s r =
      (m : String) (x : DeviceModelInfo)
      → db.get_device_model m r ≡ some x
      → (x.type_code ≡ info.type_code) ⊎ WasThere s x

  -- What the SQL statements of src/middleware/storage/database.cpp do: the deletions only mark a row, and
  -- the type of a model is written by its own insertion and update.
  pub record IsStore : Type 0 where
    pub insert_type :
        (i : DeviceTypeInfo) (s : S)
        → KeepsTypes s (db.insert_device_type i s).0 × KeepsModels s (db.insert_device_type i s).0
    pub update_type :
        (i : DeviceTypeInfo) (s : S)
        → KeepsTypes s (db.update_device_type i s).0 × KeepsModels s (db.update_device_type i s).0
    pub delete_type :
        (c : String) (s : S)
        → KeepsTypes s (db.delete_device_type c s).0 × KeepsModels s (db.delete_device_type c s).0
    pub insert_model :
        (i : DeviceModelInfo) (s : S)
        → KeepsTypes s (db.insert_device_model i s).0
          × WritesModel i s (db.insert_device_model i s).0
    pub update_model :
        (i : DeviceModelInfo) (s : S)
        → KeepsTypes s (db.update_device_model i s).0
          × WritesModel i s (db.update_device_model i s).0
    pub delete_model :
        (c : String) (s : S)
        → KeepsTypes s (db.delete_device_model c s).0 × KeepsModels s (db.delete_device_model c s).0

  kept-IsTyped : (s r : S) → KeepsTypes s r × KeepsModels s r → IsTyped s → IsTyped r
  unfolding IsTyped
  kept-IsTyped s r k v m x e =
      (let w : WasThere s x = k.1 m x e in
        k.0 x.type_code (subst (λ c. type_exists db c s ≡ true) w.3 (v w.0 w.1 w.2)))

  written-IsTyped :
      (i : DeviceModelInfo) (s r : S)
      → KeepsTypes s r × WritesModel i s r
      → type_exists db i.type_code s ≡ true
      → IsTyped s
      → IsTyped r
  unfolding IsTyped
  written-IsTyped i s r k t v m x e = elim (k.1 m x e) [
    | inl new ↦ k.0 x.type_code (subst (λ c. type_exists db c s ≡ true) (sym new) t)
    | inr w ↦ k.0 x.type_code (subst (λ c. type_exists db c s ≡ true) w.3 (v w.0 w.1 w.2))
  ]

  next-IsTyped : (c : Call) (s : S) → IsStore → IsTyped s → IsTyped (next c s)
  unfolding next create_type update_type delete_type create_model update_model delete_model
  next-IsTyped (add_type info) s laws v =
      if_both (λ (o : S × StatusCode). IsTyped o.0)
        (is_empty info.type_code || is_empty info.display_name) _ _ v
        (if_both (λ (o : S × StatusCode). IsTyped o.0) (type_exists db info.type_code s) _ _ v
          (kept-IsTyped s _ (laws.insert_type info s) v))
  next-IsTyped (set_type c info) s laws v =
      if_both (λ (o : S × StatusCode). IsTyped o.0) (not (type_exists db c s)) _ _ v
        (kept-IsTyped s _ (laws.update_type info s) v)
  next-IsTyped (drop_type c) s laws v =
      if_both (λ (o : S × StatusCode). IsTyped o.0) (c == "other") _ _ v
        (if_both (λ (o : S × StatusCode). IsTyped o.0)
          (not (no_models (db.list_device_models c true s))) _ _ v
          (kept-IsTyped s _ (laws.delete_type c s) v))
  next-IsTyped (add_model info) s laws v =
      if_both (λ (o : S × StatusCode). IsTyped o.0)
        (is_empty info.model_code || is_empty info.display_name || is_empty info.type_code) _ _ v
        (elim (Bool-cases (type_exists db info.type_code s)) [
          | inl known ↦ rw known (
              if_both (λ (o : S × StatusCode). IsTyped o.0) (model_exists db info.model_code s) _ _
                v (written-IsTyped info s _ (laws.insert_model info s) known v))
          | inr absent ↦ rw absent v
        ])
  next-IsTyped (set_model c info) s laws v =
      if_both (λ (o : S × StatusCode). IsTyped o.0) (not (model_exists db c s)) _ _ v
        (elim (Bool-cases (type_exists db info.type_code s)) [
          | inl known ↦ rw known (written-IsTyped info s _ (laws.update_model info s) known v)
          | inr absent ↦ rw absent v
        ])
  next-IsTyped (drop_model c) s laws v = kept-IsTyped s _ (laws.delete_model c s) v

  -- Whatever types and models are created, updated and deleted, every model that is found names a type
  -- that is found, if this held before and the database does what its statements say.
  pub run-IsTyped : (cs : List Call) (s : S) → IsStore → IsTyped s → IsTyped (run cs s)
  unfolding run
  run-IsTyped [] s laws v = v
  run-IsTyped (c ∷ cs) s laws v = run-IsTyped cs (next c s) laws (next-IsTyped c s laws v)
