-- ===== src/Macros/Laws.antt =====
-- Which function a dispatch calls.
use buffer.Common.{
  ℕ, List, [], ◌∷◌, ◌≡◌, ◌≢◌, refl, ==-true, ==-false, Bool-cases, inl, inr, ◌==◌, eq_of_==, sym,
  ap,
}
use buffer.Macros.{
  NumericType, arms, match_arms, call_numeric_buffer_fn, call_numeric_buffer_method, u8, i8, u16,
  i16, u32, i32, u64, i64, f32, f64,
}

-- A type is one of the arms.
data Among (n : NumericType) : List NumericType → Type 0 where
  first : {rest : List NumericType} → Among n (n ∷ rest)
  later : {m : NumericType} {rest : List NumericType} → Among n rest → Among n (m ∷ rest)

all_arms : (n : NumericType) → Among n arms
all_arms u8 = first
all_arms i8 = later first
all_arms u16 = later (later first)
all_arms i16 = later (later (later first))
all_arms u32 = later (later (later (later first)))
all_arms i32 = later (later (later (later (later first))))
all_arms u64 = later (later (later (later (later (later first)))))
all_arms i64 = later (later (later (later (later (later (later first))))))
all_arms f32 = later (later (later (later (later (later (later (later first)))))))
all_arms f64 = later (later (later (later (later (later (later (later (later first))))))))

module _ {R : Type 0} (type_id : NumericType → ℕ) (fn : NumericType → R) (err : R) where
  module _ (distinct : (n m : NumericType) → type_id n ≡ type_id m → n ≡ m) where
    match_arms-Among :
        (n : NumericType) {ns : List NumericType}
        → Among n ns
        → match_arms type_id ns (type_id n) fn err ≡ fn n
    unfolding match_arms
    match_arms-Among n first = rw (==-true (type_id n) (type_id n) refl)
    match_arms-Among n (later {m = m} among) = elim (Bool-cases (type_id n == type_id m)) [
      | inl e ↦ rw (e, match_arms) (ap fn (sym (distinct n m (eq_of_== e))))
      | inr e ↦ rw (e, match_arms) (match_arms-Among n among)
    ]

    pub call_numeric_buffer_fn_lem :
        (n : NumericType) → call_numeric_buffer_fn type_id (type_id n) fn err ≡ fn n
    unfolding call_numeric_buffer_fn
    call_numeric_buffer_fn_lem n = match_arms-Among n (all_arms n)

  pub match_arms-other :
      (ns : List NumericType) (x : ℕ)
      → ((n : NumericType) → x ≢ type_id n)
      → match_arms type_id ns x fn err ≡ err
  unfolding match_arms
  match_arms-other [] x h = refl
  match_arms-other (n ∷ ns) x h =
      rw (==-false x (type_id n) (h n), match_arms) (match_arms-other ns x h)

-- A method is called at the type of the buffer.
pub call_numeric_buffer_method_lem :
    {B R : Type 0} (type_id : NumericType → ℕ) (element_type_id : B → ℕ) (buf : B)
    (method : B → NumericType → R) (err : R)
    → ((n m : NumericType) → type_id n ≡ type_id m → n ≡ m)
    → (n : NumericType) → element_type_id buf ≡ type_id n
    → call_numeric_buffer_method type_id element_type_id buf method err ≡ method buf n
unfolding call_numeric_buffer_method call_numeric_buffer_fn
call_numeric_buffer_method_lem type_id element_type_id buf method err distinct n same =
    rw same (call_numeric_buffer_fn_lem type_id (method buf) err distinct n)
