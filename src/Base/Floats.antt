-- ===== src/Base/Floats.antt =====
-- Floating point numbers are not modelled: a program part takes their type `T` and the operations
-- that it uses as an instance of this interface.
use mathlib.Core.Bool.{Bool}

pub record Float32 (T : Type 0) : Type 0 where
  pub zero_f : T
  pub sub_f : T → T → T
  pub gt_f : T → T → Bool
  pub eq_f : T → T → Bool
  pub sixty : T

module _ {T : Type 0} ⦃F : Float32 T⦄ where
  abbrev pub zero_t : T
  zero_t = F.zero_f

  abbrev pub minus : T → T → T
  minus = F.sub_f

  abbrev pub exceeds : T → T → Bool
  exceeds = F.gt_f

  abbrev pub same : T → T → Bool
  same = F.eq_f
