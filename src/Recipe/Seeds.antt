-- ===== src/Recipe/Seeds.antt =====
-- src/app/recipe/recipe_manager.cpp, `seed_mock_data`: the recipes that the source writes out. The
-- values of the parameters are whole numbers in the source, and `double` turns them into `Double`.
use iot_dev_sys.Common.{ℕ, String, true, List, [], ◌∷◌}
use iot_dev_sys.Common.Int.{pos}
use iot_dev_sys.Types.Device.{coffee_machine, instant_machine, water_dispenser}
use iot_dev_sys.Types.Recipe.{Recipe, RecipeStep, CupSizeOption}

abbrev cup : String → ℕ → ℕ → CupSizeOption
cup size price volume_ml = record { size = size; price = pos price; volume_ml = pos volume_ml }

module _ {Double : Type 0} (double : ℕ → Double) where
  abbrev step : String → ℕ → List (String × Double) → RecipeStep Double
  step action duration_ms params = record {
    action = action;
    duration_ms = pos duration_ms;
    params = params;
  }

  abbrev pub americano : Recipe Double
  americano = record {
    recipe_id = "REC-AMERICANO-001";
    recipe_name = "经典美式";
    device_type = coffee_machine;
    category = "咖啡";
    description = "";
    steps =
        step "grind" 5000 (("bean_weight_g", double 15) ∷ [])
        ∷ step "brew" 25000 (
            ("temperature_c", double 92)
            ∷ ("pressure_bar", double 9)
            ∷ ("volume_ml", double 200)
            ∷ [])
        ∷ step "dispense" 3000 ([])
        ∷ [];
    cup_sizes = cup "小" 1200 200 ∷ cup "中" 1500 300 ∷ cup "大" 1800 400 ∷ [];
    is_active = true;
    version = pos 3;
  }

  abbrev pub latte : Recipe Double
  latte = record {
    recipe_id = "REC-LATTE-001";
    recipe_name = "拿铁咖啡";
    device_type = coffee_machine;
    category = "咖啡";
    description = "";
    steps =
        step "grind" 5000 (("bean_weight_g", double 15) ∷ [])
        ∷ step "brew" 25000 (
            ("temperature_c", double 92)
            ∷ ("pressure_bar", double 9)
            ∷ ("volume_ml", double 40)
            ∷ [])
        ∷ step "heat" 10000 (("temperature_c", double 65) ∷ ("volume_ml", double 200) ∷ [])
        ∷ step "mix" 3000 ([])
        ∷ step "dispense" 3000 ([])
        ∷ [];
    cup_sizes = cup "小" 1800 240 ∷ cup "中" 2200 300 ∷ cup "大" 2600 400 ∷ [];
    is_active = true;
    version = pos 5;
  }

  abbrev pub cappuccino : Recipe Double
  cappuccino = record {
    recipe_id = "REC-CAPPUCCINO-001";
    recipe_name = "卡布奇诺";
    device_type = coffee_machine;
    category = "咖啡";
    description = "";
    steps =
        step "grind" 5000 (("bean_weight_g", double 15) ∷ [])
        ∷ step "brew" 25000 (("temperature_c", double 92) ∷ ("volume_ml", double 40) ∷ [])
        ∷ step "heat" 8000 (("temperature_c", double 65) ∷ ("volume_ml", double 120) ∷ [])
        ∷ step "mix" 5000 ([])
        ∷ step "dispense" 3000 ([])
        ∷ [];
    cup_sizes = cup "小" 2000 240 ∷ cup "中" 2400 300 ∷ cup "大" 2800 400 ∷ [];
    is_active = true;
    version = pos 4;
  }

  abbrev pub mocha : Recipe Double
  mocha = record {
    recipe_id = "REC-MOCHA-001";
    recipe_name = "摩卡咖啡";
    device_type = coffee_machine;
    category = "咖啡";
    description = "";
    steps =
        step "grind" 5000 (("bean_weight_g", double 15) ∷ [])
        ∷ step "brew" 25000 (("temperature_c", double 92) ∷ ("volume_ml", double 40) ∷ [])
        ∷ step "mix" 5000 (("chocolate_syrup_ml", double 20) ∷ [])
        ∷ step "heat" 8000 (("temperature_c", double 65) ∷ ("volume_ml", double 180) ∷ [])
        ∷ step "dispense" 3000 ([])
        ∷ [];
    cup_sizes = cup "小" 2400 240 ∷ cup "中" 2800 300 ∷ cup "大" 3200 400 ∷ [];
    is_active = true;
    version = pos 2;
  }

  abbrev pub hot_water : Recipe Double
  hot_water = record {
    recipe_id = "REC-HOTWATER-001";
    recipe_name = "热水";
    device_type = water_dispenser;
    category = "热水";
    description = "";
    steps =
        step "heat" 15000 (("temperature_c", double 95) ∷ ("volume_ml", double 300) ∷ [])
        ∷ step "dispense" 3000 ([])
        ∷ [];
    cup_sizes = cup "小" 300 200 ∷ cup "中" 500 300 ∷ cup "大" 800 500 ∷ [];
    is_active = true;
    version = pos 1;
  }

  abbrev pub milk_tea : Recipe Double
  milk_tea = record {
    recipe_id = "REC-MILKTEA-001";
    recipe_name = "原味奶茶";
    device_type = instant_machine;
    category = "茶饮";
    description = "";
    steps =
        step "mix" 8000 (
          ("powder_g", double 25)
          ∷ ("water_volume_ml", double 250)
          ∷ ("temperature_c", double 85)
          ∷ [])
        ∷ step "dispense" 3000 ([])
        ∷ [];
    cup_sizes = cup "中" 1200 300 ∷ cup "大" 1500 400 ∷ [];
    is_active = true;
    version = pos 2;
  }
