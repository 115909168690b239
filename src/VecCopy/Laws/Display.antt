-- ===== src/VecCopy/Laws/Display.antt =====
-- What is displayed of a numeric buffer.
use buffer.Common.{List, [], ◌∷◌, some, ◌≡◌, ap, ◌∙◌, ok, ==-true, arith}
use Prim.Native.String.{String, ◌++◌}
use text.Mathlib.TextLemmas.{append-nil, append_assoc}
use buffer.Std.Platform.{Platform}
use buffer.Macros.{NumericType, call_numeric_buffer_method}
use buffer.Macros.Laws.{call_numeric_buffer_method_lem}
use buffer.VecCopy.{VecCopy, element_type_id}
use buffer.VecCopy.Cast.{Numbers}
use buffer.VecCopy.Convert.{reinterpret_iter, reinterpret_as_slice}
use buffer.VecCopy.Display.{Formatter, write_items, reinterpret_display, fmt}
use buffer.VecCopy.Holds.{Holds}

-- The formatter that collects the text.
abbrev pub to_string : Formatter String
to_string = record { write = λ s f. some (f ++ s) }

module _ {O : Type 0} (p : Platform) (numbers : Numbers O)
    (text : (n : NumericType) → numbers.Num n → String) where
  -- Each text with a blank behind it.
  abbrev pub joined : (n : NumericType) → List (numbers.Num n) → String
  joined n [] = ""
  joined n (x ∷ xs) = text n x ++ (" " ++ joined n xs)

  write_items-joined :
      (n : NumericType) (xs : List (numbers.Num n)) (f : String)
      → write_items p numbers to_string text n xs f ≡ ok (f ++ joined n xs)
  unfolding write_items
  write_items-joined n [] f = rw (append-nil f)
  write_items-joined n (x ∷ xs) f =
      write_items-joined n xs ((f ++ text n x) ++ " ")
      ∙ ap ok (
          append_assoc (f ++ text n x) " " (joined n xs)
          ∙ append_assoc f (text n x) (" " ++ joined n xs))

  reinterpret_display-Holds :
      (n : NumericType) {v : VecCopy} {xs : List (numbers.Num n)} (f : String)
      → Holds (numbers.repr n) v xs
      → reinterpret_display p numbers to_string text v f n ≡ ok (f ++ joined n xs)
  unfolding reinterpret_display reinterpret_iter reinterpret_as_slice
  reinterpret_display-Holds n {v} {xs} f h =
      let r = numbers.reinterpret n in
      let read = ap r.reinterpret_slice h.memory ∙ r.reinterpret_slice-encode xs in
      let same = ==-true v.element_type_id (numbers.repr n).type_id h.same_type in
      ground (arith, same, read, write_items-joined n xs f)

  -- `fmt` of `Display`, of a buffer that holds `xs` of a numeric type, puts the texts of `xs`,
  -- in order and with a blank behind each, behind what is in the formatter, for a formatter that
  -- collects the text, where numeric types have different `TypeId`s and `reinterpret_slice` is
  -- as assumed.
  pub fmt_refines :
      (n : NumericType) {v : VecCopy} {xs : List (numbers.Num n)} (f : String)
      → ((a b : NumericType) → (numbers.repr a).type_id ≡ (numbers.repr b).type_id → a ≡ b)
      → Holds (numbers.repr n) v xs
      → fmt p numbers to_string text v f ≡ ok (some (f ++ joined n xs))
  unfolding fmt
  fmt_refines n {v} {xs} f distinct h =
      let type_ids = λ (a : NumericType). (numbers.repr a).type_id in
      let shown = λ (u : VecCopy). reinterpret_display p numbers to_string text u f in
      let dispatched : call_numeric_buffer_method type_ids element_type_id v shown (ok f)
          ≡ ok (f ++ joined n xs) =
        call_numeric_buffer_method_lem type_ids element_type_id v shown (ok f) distinct n
          h.same_type
        ∙ reinterpret_display-Holds n f h in
      rw (dispatched, append-nil (f ++ joined n xs))
