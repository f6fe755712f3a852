-- ===== src/Order/Catalog.antt =====
-- The trusted synthetic catalog and its bounds (src/order_integrity/catalog.py).
use secure_swipe.Prelude.{ℕ, String, [], ◌∷◌}
use secure_swipe.Prelude.Dict.{Dict}
use secure_swipe.Prelude.Int.{pos}
use secure_swipe.Prelude.Value.{Value, integer}

abbrev pub catalog_version : String
catalog_version = "synthetic-catalog-v1"

abbrev pub catalog_currency : String
catalog_currency = "XTS"

abbrev pub catalog : Dict String Value
catalog =
    ("SKU_ALPHA", integer (pos 129900))
    ∷ ("SKU_BETA", integer (pos 4550))
    ∷ ("SKU_GAMMA", integer (pos 87325))
    ∷ []

abbrev pub catalog_version_next : String
catalog_version_next = "synthetic-catalog-v2"

abbrev pub catalog_next : Dict String Value
catalog_next =
    ("SKU_ALPHA", integer (pos 139900))
    ∷ ("SKU_BETA", integer (pos 4550))
    ∷ ("SKU_GAMMA", integer (pos 87325))
    ∷ []

abbrev pub max_quantity_per_line : ℕ
max_quantity_per_line = 100

abbrev pub max_lines_per_cart : ℕ
max_lines_per_cart = 20

abbrev pub max_total_minor : ℕ
max_total_minor = 1000000000
