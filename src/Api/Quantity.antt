-- ===== src/Api/Quantity.antt =====
-- `resource.Quantity`: its canonical text, with the two operations that the code calls.
use cluster_api_provider_bri.Prelude.{String, ℤ, Ordering}

abbrev pub Quantity : Type 0
Quantity = String

-- `Cmp` and `Value`
pub record QuantityOps : Type 0 where
  pub cmp : Quantity → Quantity → Ordering
  pub value : Quantity → ℤ
