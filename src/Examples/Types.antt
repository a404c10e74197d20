-- ===== src/Examples/Types.antt =====
-- Types and models of src/app/device/device_type_manager.cpp, over a database of two lists in which the
-- newest row counts.
use iot_dev_sys.Common.{
  refl, String, Bool, true, List, [], ◌∷◌, inl, inr, arith, Bool-cases, ◌==◌, find_if,
}
use iot_dev_sys.Common.Int.{pos}
use iot_dev_sys.Status.{ok}
use iot_dev_sys.Types.Activation.{DeviceTypeInfo, DeviceModelInfo}
use iot_dev_sys.Catalog.{Store, type_exists}
use iot_dev_sys.Catalog.Typed.{
  add_type, add_model, drop_type, run, IsTyped, IsStore, KeepsTypes, WritesModel, run-IsTyped,
}

abbrev grinder : DeviceTypeInfo
grinder = record {
  id = pos 1;
  type_code = "grinder";
  display_name = "Grinder";
  description = "";
  internal_type = pos 4;
  icon_url = "";
  sort_order = pos 0;
  is_active = true;
  created_at = "";
  updated_at = "";
}

abbrev mill : DeviceModelInfo
mill = record {
  id = pos 1;
  model_code = "M1";
  model_key = "K1";
  type_code = "grinder";
  display_name = "Mill";
  description = "";
  specs_json = "";
  firmware_base = "1.0.0";
  is_active = true;
  sort_order = pos 0;
  created_at = "";
  updated_at = "";
}

abbrev Tables : Type 0
Tables = List DeviceTypeInfo × List DeviceModelInfo

abbrev is_type : String → DeviceTypeInfo → Bool
is_type c t = t.type_code == c

abbrev is_model : String → DeviceModelInfo → Bool
is_model m x = x.model_code == m

abbrev tables : Store Tables
tables = record {
  list_device_types = λ b s. s.0;
  get_device_type = λ c s. find_if (is_type c) s.0;
  insert_device_type = λ i s. ((i ∷ s.0, s.1), ok);
  update_device_type = λ i s. ((i ∷ s.0, s.1), ok);
  delete_device_type = λ c s. (s, ok);
  list_device_models = λ c b s. s.1;
  get_device_model = λ m s. find_if (is_model m) s.1;
  insert_device_model = λ i s. ((s.0, i ∷ s.1), ok);
  update_device_model = λ i s. ((s.0, i ∷ s.1), ok);
  delete_device_model = λ m s. (s, ok);
}

type_kept : (i : DeviceTypeInfo) (s : Tables) → KeepsTypes tables s (i ∷ s.0, s.1)
unfolding find_if type_exists
type_kept i s c h = ground (arith, h)

model_written : (i : DeviceModelInfo) (s : Tables) → WritesModel tables i s (s.0, i ∷ s.1)
unfolding find_if
model_written i s m x e = elim (Bool-cases (is_model m i)) [
  | inl new ↦ inl (ground (arith, e, new))
  | inr old ↦ inr (m, x, ground (arith, e, old), refl)
]

tables-IsStore : IsStore tables
unfolding type_exists
tables-IsStore = record {
  insert_type = λ i s. (type_kept i s, λ m x e. (m, x, e, refl));
  update_type = λ i s. (type_kept i s, λ m x e. (m, x, e, refl));
  delete_type = λ c s. (λ k h. h, λ m x e. (m, x, e, refl));
  insert_model = λ i s. (λ c h. h, model_written i s);
  update_model = λ i s. (λ c h. h, model_written i s);
  delete_model = λ c s. (λ k h. h, λ m x e. (m, x, e, refl));
}

abbrev empty : Tables
empty = ([], [])

empty-IsTyped : IsTyped tables empty
unfolding IsTyped find_if
empty-IsTyped m x e = absurd (cc e)

run-IsTyped_example :
    IsTyped tables (run tables (add_type grinder ∷ add_model mill ∷ drop_type "grinder" ∷ []) empty)
run-IsTyped_example =
    run-IsTyped tables (add_type grinder ∷ add_model mill ∷ drop_type "grinder" ∷ []) empty
      tables-IsStore empty-IsTyped
