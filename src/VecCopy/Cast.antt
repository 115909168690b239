-- ===== src/VecCopy/Cast.antt =====
-- `cast_into_vec` of src/lib.rs (feature numeric), with what it takes from the package num-traits.
use buffer.Common.{
  List, [], Option, none, some, map, ◌==◌, if◌then◌else◌, Outcome, ok, assert, ◌>>=◌, ◌>>◌,
}
use buffer.Std.Platform.{Platform}
use buffer.Bytes.{Repr}
use buffer.Macros.{NumericType, call_numeric_buffer_fn}
use buffer.VecCopy.{VecCopy}
use buffer.VecCopy.Convert.{Reinterpret, reinterpret_into_vec}

-- The numeric types of the language, and `cast` and `zero` of num-traits for an output type `O`.
pub record Numbers (O : Type 0) : Type 1 where
  pub Num : NumericType → Type 0
  pub repr : (n : NumericType) → Repr (Num n)
  pub reinterpret : (n : NumericType) → Reinterpret (repr n)
  pub cast : (n : NumericType) → Num n → Option O
  pub zero : O

unwrap_or : {O : Type 0} → O → Option O → O
unwrap_or d none = d
unwrap_or d (some x) = x

module _ {O : Type 0} (p : Platform) (numbers : Numbers O) where
  -- `cast(elem).unwrap_or(O::zero())`
  unfoldable pub convert : (n : NumericType) → numbers.Num n → O
  unfolding unwrap_or
  convert n elem = unwrap_or numbers.zero (numbers.cast n elem)

  unfoldable pub convert_into_vec : VecCopy → NumericType → Outcome (List O)
  convert_into_vec buf n = do
    if p.debug then assert (buf.element_type_id == (numbers.repr n).type_id) else ok tt
    w ← reinterpret_into_vec (numbers.reinterpret n) buf
    ok (map (convert n) w.items)

  -- The items of the vector that is collected.
  unfoldable pub cast_into_vec : VecCopy → Outcome (List O)
  cast_into_vec v =
      call_numeric_buffer_fn (λ n. (numbers.repr n).type_id) v.element_type_id (convert_into_vec v)
        (ok [])
