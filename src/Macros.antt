-- ===== src/Macros.antt =====
-- `call_numeric_buffer_fn!` of src/macros.rs: a function called at the numeric type whose `TypeId` a
-- buffer has.
pub mod Laws
use buffer.Common.{ℕ, List, [], ◌∷◌, ◌==◌, if◌then◌else◌}

pub data NumericType : Type 0 where
  u8 : NumericType
  i8 : NumericType
  u16 : NumericType
  i16 : NumericType
  u32 : NumericType
  i32 : NumericType
  u64 : NumericType
  i64 : NumericType
  f32 : NumericType
  f64 : NumericType

-- The arms of the match, from the first on.
abbrev pub arms : List NumericType
arms = u8 ∷ i8 ∷ u16 ∷ i16 ∷ u32 ∷ i32 ∷ u64 ∷ i64 ∷ f32 ∷ f64 ∷ []

-- The first arm whose guard holds.
unfoldable pub match_arms :
    {R : Type 0} → (NumericType → ℕ) → List NumericType → ℕ → (NumericType → R) → R → R
match_arms type_id [] x fn err = err
match_arms type_id (n ∷ rest) x fn err =
    if x == type_id n then fn n else match_arms type_id rest x fn err

-- `type_id` is `TypeId::of`, `x` the buffer's, `fn` the function at a type, and `err` the block
-- behind `or`.
unfoldable pub call_numeric_buffer_fn :
    {R : Type 0} → (NumericType → ℕ) → ℕ → (NumericType → R) → R → R
call_numeric_buffer_fn type_id x fn err = match_arms type_id arms x fn err

-- The form for a method of the buffer `buf`, which has the same arms.
unfoldable pub call_numeric_buffer_method :
    {B R : Type 0} → (NumericType → ℕ) → (B → ℕ) → B → (B → NumericType → R) → R → R
call_numeric_buffer_method type_id element_type_id buf method err =
    match_arms type_id arms (element_type_id buf) (method buf) err
