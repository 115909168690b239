-- ===== src/VecCopy/Display.antt =====
-- `Display` of a `VecCopy` (src/lib.rs, feature numeric), with what it takes from `std::fmt`.
use buffer.Common.{
  List, [], ◌∷◌, Option, none, some, ◌==◌, if◌then◌else◌, Outcome, ok, panic, assert, ◌>>=◌, ◌>>◌,
}
use Prim.Native.String.{String}
use buffer.Std.Platform.{Platform}
use buffer.Macros.{NumericType, call_numeric_buffer_method}
use buffer.VecCopy.{VecCopy, element_type_id}
use buffer.VecCopy.Cast.{Numbers}
use buffer.VecCopy.Convert.{reinterpret_iter}

-- A formatter `F`: `write` adds a text, or fails.
pub record Formatter (F : Type 0) : Type 0 where
  pub write : String → F → Option F

abbrev pub expect {ℓ} : {A : Type ℓ} → Option A → Outcome A
expect none = panic
expect (some a) = ok a

-- `text` is what `{}` writes of a number.
module _ {O F : Type 0} (p : Platform) (numbers : Numbers O) (formatter : Formatter F)
    (text : (n : NumericType) → numbers.Num n → String) where
  -- `for item in self.reinterpret_iter::<T>()`
  unfoldable pub write_items : (n : NumericType) → List (numbers.Num n) → F → Outcome F
  write_items n [] f = ok f
  write_items n (item ∷ items) f = do
    f ← expect (formatter.write (text n item) f)
    f ← expect (formatter.write " " f)
    write_items n items f

  unfoldable pub reinterpret_display : VecCopy → F → NumericType → Outcome F
  reinterpret_display v f n = do
    if p.debug then assert (v.element_type_id == (numbers.repr n).type_id) else ok tt
    items ← reinterpret_iter (numbers.reinterpret n) v
    write_items n items f

  -- `Display::fmt`: the line that is printed for a buffer of another type is left out.
  unfoldable pub fmt : VecCopy → F → Outcome (Option F)
  fmt v f = do
    f ←
        call_numeric_buffer_method (λ n. (numbers.repr n).type_id) element_type_id v
          (λ v. reinterpret_display v f) (ok f)
    ok (formatter.write "" f)
