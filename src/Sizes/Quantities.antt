-- ===== src/Sizes/Quantities.antt =====
-- The package k8s.io/apimachinery/pkg/api/resource, which the program only calls.
use shpyrd.Common.{ℕ, String, Bool, Option}

pub record Quantities : Type 1 where
  pub Quantity : Type 0
  -- ParseQuantity, `none` where it returns an error
  pub parse : String → Option Quantity
  -- Sign() > 0
  pub is_positive : Quantity → Bool
  -- a.Cmp(b) > 0
  pub more : Quantity → Quantity → Bool
  -- MilliValue, and NewMilliQuantity in the decimal format
  pub milli_value : Quantity → ℕ
  pub new_milli : ℕ → Quantity
  -- Add, and the zero value
  pub add : Quantity → Quantity → Quantity
  pub nothing : Quantity
