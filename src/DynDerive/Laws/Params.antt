-- ===== src/DynDerive/Laws/Params.antt =====
-- The map of generic types that `dyn_fn_sig` of dyn-derive/src/lib.rs makes of the parameters.
use buffer.Common.{
  ok, Option, none, some, List, [], ◌∷◌, true, if◌then◌else◌, ◌≡◌, refl, ◌∙◌, arith,
}
use Prim.Native.String.{String}
use text.Mathlib.Text.{◌==◌ as str_eq}
use buffer.DynDerive.Syntax.{Bound, any_trait}
use buffer.DynDerive.Generics.{GenericsMap, get, insert}
use buffer.DynDerive.Signature.{
  TypeParam, GenericParam, type_param, lifetime_param, const_param, add_param, add_params,
}
use buffer.DynDerive.Laws.Paths.{All}
use buffer.DynDerive.Laws.Convert.{Describes}
use buffer.DynDerive.Laws.Supported.{IsSupportedParam, IsTypeParam, or_else, bounds_of}

-- The map that the loop over the parameters makes.
Gathers : List GenericParam → GenericsMap → Type 0
Gathers params generics =
    (generics' : GenericsMap) × (add_params params generics ≡ ok generics')
    × ((n : String) → get n generics' ≡ or_else (bounds_of params n) (get n generics))

add_param_supported :
    (t : TypeParam) (generics : GenericsMap)
    → IsSupportedParam t
    → add_param (type_param t) generics ≡ ok (insert t.ident t.bounds generics)
unfolding add_param
add_param_supported t generics s = rw (s.no_attrs, s.has_colon, s.no_eq, s.no_default)

or_else_first :
    (o : Option (List Bound)) (m n : String) (bounds : List Bound) (generics : GenericsMap)
    → or_else o (get n (insert m bounds generics))
      ≡ or_else (or_else o (if str_eq m n then some bounds else none)) (get n generics)
or_else_first (some b) m n bounds generics = refl
or_else_first none m n bounds generics = ground arith

add_params-Gathers :
    (params : List GenericParam) (generics : GenericsMap)
    → All IsTypeParam params
    → Gathers params generics
unfolding Gathers add_params
add_params-Gathers [] generics h = (generics, refl, λ n. refl)
add_params-Gathers (type_param t ∷ params) generics (s, h) =
    let (generics', e, found) = add_params-Gathers params (insert t.ident t.bounds generics) h in
    (
      generics',
      rw (add_param_supported t generics s) e,
      λ n. found n ∙ or_else_first (bounds_of params n) t.ident n t.bounds generics,
    )
add_params-Gathers (lifetime_param _ ∷ params) generics (s, h) = absurd s
add_params-Gathers (const_param _ ∷ params) generics (s, h) = absurd s

named_traits :
    (o : Option (List Bound)) (t : TypeParam) (n : String) (bounds : List Bound)
    → any_trait t.bounds ≡ true
    → ((b : List Bound) → o ≡ some b → any_trait b ≡ true)
    → or_else o (if str_eq t.ident n then some t.bounds else none) ≡ some bounds
    → any_trait bounds ≡ true
named_traits (some b) t n bounds h rest e = rest bounds e
named_traits none t n bounds h rest e = ground arith

bounds_of-any_trait :
    (params : List GenericParam) (n : String) (bounds : List Bound)
    → All IsTypeParam params
    → bounds_of params n ≡ some bounds
    → any_trait bounds ≡ true
bounds_of-any_trait [] n bounds h e = cc
bounds_of-any_trait (type_param t ∷ params) n bounds (s, h) e =
    named_traits (bounds_of params n) t n bounds s.has_trait
      (λ b f. bounds_of-any_trait params n b h f) e
bounds_of-any_trait (lifetime_param _ ∷ params) n bounds (s, h) e = absurd s
bounds_of-any_trait (const_param _ ∷ params) n bounds (s, h) e = absurd s

or_else-none : (o : Option (List Bound)) → or_else o none ≡ o
or_else-none none = refl
or_else-none (some b) = refl

-- The map that `dyn_fn_sig` makes has the bounds of each parameter under its name, and nothing else.
pub add_params-Describes :
    (params : List GenericParam)
    → All IsTypeParam params
    → (generics : GenericsMap) × (add_params params [] ≡ ok generics)
      × Describes generics (bounds_of params)
unfolding Gathers
add_params-Describes params h =
    let (generics, e, found) = add_params-Gathers params [] h in
    (
      generics,
      e,
      record {
        same = λ n. found n ∙ or_else-none (bounds_of params n);
        traits = λ n bounds f. bounds_of-any_trait params n bounds h f;
      },
    )
