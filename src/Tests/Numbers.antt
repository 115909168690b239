-- ===== src/Tests/Numbers.antt =====
-- The cast of a numeric buffer, with ten types of one byte each in place of the numeric ones.
use Prim.Native.String.{String}
use buffer.VecCopy.Display.{fmt}
use buffer.VecCopy.Laws.Display.{to_string, fmt_refines}
use buffer.Common.{
  ◌==◌, zero, suc, ◌/◌, ℕ, ◌≡◌, refl, List, [], ◌∷◌, Option, none, some, ok, ap, sym, ◌∙◌, arith,
  ltb, if◌then◌else◌,
}
use buffer.Std.Vec.{Vec, vec}
use buffer.Bytes.{Repr, encode}
use buffer.Bytes.Laws.{encode-cons, encode-nil}
use buffer.Macros.{arms, NumericType, u8, i8, u16, i16, u32, i32, u64, i64, f32, f64}
use buffer.VecCopy.{VecCopy}
use buffer.VecCopy.Holds.{Holds}
use buffer.VecCopy.Convert.{Reinterpret}
use buffer.VecCopy.Cast.{Numbers, cast_into_vec}
use buffer.VecCopy.Laws.Cast.{AreCasts, cast_into_vec_refines}
use buffer.Tests.Inputs.{dev, byte}

abbrev number : NumericType → ℕ
number u8 = 0
number i8 = 1
number u16 = 2
number i16 = 3
number u32 = 4
number i32 = 5
number u64 = 6
number i64 = 7
number f32 = 8
number f64 = 9

abbrev nth : List NumericType → ℕ → NumericType
nth [] k = f64
nth (n ∷ ns) zero = n
nth (n ∷ ns) (suc k) = nth ns k

abbrev type_of : ℕ → NumericType
type_of k = nth arms k

type_of-number : (n : NumericType) → type_of (number n) ≡ n
type_of-number u8 = refl
type_of-number i8 = refl
type_of-number u16 = refl
type_of-number i16 = refl
type_of-number u32 = refl
type_of-number i32 = refl
type_of-number u64 = refl
type_of-number i64 = refl
type_of-number f32 = refl
type_of-number f64 = refl

distinct : (a b : NumericType) → number a ≡ number b → a ≡ b
distinct a b e = sym (type_of-number a) ∙ ap type_of e ∙ type_of-number b

abbrev number_repr : NumericType → Repr ℕ
number_repr n = record byte { type_id = number n }

encode_bytes : (n : NumericType) (xs : List ℕ) → encode (number_repr n) xs ≡ xs
encode_bytes n [] = encode-nil (number_repr n)
encode_bytes n (x ∷ xs) = encode-cons (number_repr n) x xs ∙ ap (x ∷◌) (encode_bytes n xs)

number_reinterpret : (n : NumericType) → Reinterpret (number_repr n)
number_reinterpret n = record {
  reinterpret_vec = λ (v : Vec ℕ). ok (vec v.items (v.capacity / 1));
  reinterpret_slice = λ bs. ok bs;
  reinterpret_vec-encode = λ xs cap h. ap (λ m. ok (vec m (cap / 1))) (encode_bytes n xs);
  reinterpret_slice-encode = λ xs. ap ok (encode_bytes n xs);
}

-- A cast to what is less than 3.
abbrev small : ℕ → Option ℕ
small x = if ltb x 3 then some x else none

abbrev numbers : Numbers ℕ
numbers = record {
  Num = λ _. ℕ;
  repr = number_repr;
  reinterpret = number_reinterpret;
  cast = λ _. small;
  zero = 0;
}

abbrev u16s : VecCopy
u16s = record { items = vec (2 ∷ 5 ∷ 1 ∷ []) 3; element_size = 1; element_type_id = 2 }

u16s-Holds : Holds (number_repr u16) u16s (2 ∷ 5 ∷ 1 ∷ [])
unfolding encode
u16s-Holds = record {
  positive = omega arith;
  same_type = refl;
  same_size = refl;
  memory = refl;
  room = omega arith;
}

cast_into_vec_example :
    (ys : List ℕ) × (cast_into_vec dev numbers u16s ≡ ok ys)
    × AreCasts numbers u16 (2 ∷ 5 ∷ 1 ∷ []) ys
cast_into_vec_example = cast_into_vec_refines dev numbers u16 distinct u16s-Holds refl

abbrev digit : ℕ → String
digit k = if k == 2 then "2" else if k == 5 then "5" else "1"

fmt_refines_example :
    fmt dev numbers to_string (λ _. digit) u16s "u16s: " ≡ ok (some "u16s: 2 5 1 ")
fmt_refines_example = fmt_refines dev numbers (λ _. digit) u16 "u16s: " distinct u16s-Holds
