-- ===== src/DynDerive/Laws/Where.antt =====
-- What `dyn_fn_sig` of dyn-derive/src/lib.rs does with a `where` clause.
use buffer.Common.{
  Outcome, ok, panic, undefined, ◌>>=◌, ◌>>◌, assert, Option, none, some, List, [], ◌∷◌, ◌++◌, Bool,
  true, false, not, ◌&&◌, ◌==◌, length, get_elem?, ◌≡◌, ◌≢◌, refl,
}
use buffer.DynDerive.Syntax.{no_arguments, Bound, SynType, Segment, TypePath, Quoted, path, unwrap}
use buffer.DynDerive.SelfType.{is_none}
use buffer.DynDerive.Generics.{insert, GenericsMap}
use buffer.DynDerive.Signature.{
  GenericParam, type_param, lifetime_param, const_param, Signature, WherePredicate, on_type,
  on_lifetime, on_eq, is_empty, add_param, add_params, add_bounded, add_predicate, add_predicates,
  add_where, dyn_fn_sig,
}

module _ {ℓ κ} {A : Type ℓ} {B : Type κ} where
  then_panic :
      (m : Outcome A) (next : A → Outcome B)
      → m ≢ undefined
      → ((a : A) → next a ≡ panic)
      → (m >>= next) ≡ panic
  then_panic (ok a) next d h = h a
  then_panic panic next d h = refl
  then_panic undefined next d h = absurd (d refl)

  then_defined :
      (m : Outcome A) (next : A → Outcome B)
      → m ≢ undefined
      → ((a : A) → next a ≢ undefined)
      → (m >>= next) ≢ undefined
  then_defined (ok a) next d h = h a
  then_defined panic next d h = cc
  then_defined undefined next d h = absurd (d refl)

assert-defined : (b : Bool) → assert b ≢ undefined
assert-defined true = cc
assert-defined false = cc

unwrap-defined {ℓ} : {A : Type ℓ} (o : Option A) → unwrap o ≢ undefined
unwrap-defined none = cc
unwrap-defined (some a) = cc

module _ {ℓ} {B : Type ℓ} where
  assert_then : (b : Bool) (m : Outcome B) → m ≢ undefined → (assert b >> m) ≢ undefined
  assert_then b m d = then_defined (assert b) (λ _. m) (assert-defined b) (λ _. d)

  assert_panic : (b : Bool) (m : Outcome B) → m ≡ panic → (assert b >> m) ≡ panic
  assert_panic b m e = then_panic (assert b) (λ _. m) (assert-defined b) (λ _. e)

add_param-defined :
    (gen : GenericParam) (generics : GenericsMap) → add_param gen generics ≢ undefined
unfolding add_param
add_param-defined (type_param t) generics =
    assert_then (is_empty t.attrs) _
      (assert_then t.colon_token _ (assert_then (not t.eq_token && is_none t.default_type) _ (cc)))
add_param-defined (lifetime_param _) generics = cc
add_param-defined (const_param _) generics = cc

add_params-defined :
    (params : List GenericParam) (generics : GenericsMap) → add_params params generics ≢ undefined
unfolding add_params
add_params-defined [] generics = cc
add_params-defined (gen ∷ params) generics =
    then_defined (add_param gen generics) _ (add_param-defined gen generics)
      (λ generics'. add_params-defined params generics')

add_bounded-defined :
    (ty : SynType) (bounds : List Bound) (generics : GenericsMap)
    → add_bounded ty bounds generics ≢ undefined
unfolding add_bounded
add_bounded-defined (path p) bounds generics = assert_then (is_none p.qself) _ (
    assert_then (not p.path.leading_colon) _ (
      assert_then (not (length p.path.segments == 1)) _ (
        then_defined (unwrap (get_elem? p.path.segments 0)) _ (unwrap-defined _)
          (λ seg. assert_then (not (no_arguments seg.arguments)) _ (cc)))))
add_bounded-defined (SynType.array _ _) bounds generics = cc
add_bounded-defined _ bounds generics = cc

add_predicate-defined :
    (pred : WherePredicate) (generics : GenericsMap) → add_predicate pred generics ≢ undefined
unfolding add_predicate
add_predicate-defined (on_type lifetimes ty bounds) generics =
    assert_then (not lifetimes) _ (add_bounded-defined ty bounds generics)
add_predicate-defined (on_lifetime _) generics = cc
add_predicate-defined (on_eq _) generics = cc

-- A path of one segment, or whose first segment has no arguments.
abbrev pub HasPlainStart : List Segment → Type 0
HasPlainStart [] = Unit
HasPlainStart (_ ∷ []) = Unit
HasPlainStart (s ∷ _ ∷ _) = no_arguments s.arguments ≡ true

plain_start-panic :
    (segments : List Segment) (bounds : List Bound) (generics : GenericsMap)
    → HasPlainStart segments
    → (assert (not (length segments == 1))
        >> (unwrap (get_elem? segments 0) >>= λ seg.
            assert (not (no_arguments seg.arguments)) >> ok (insert seg.ident bounds generics)))
      ≡ panic
plain_start-panic [] bounds generics h = refl
plain_start-panic (_ ∷ []) bounds generics h = refl
plain_start-panic (s ∷ _ ∷ rest) bounds generics h = rw h (assert_panic _ _ refl)

add_predicate-panic :
    (lifetimes : Bool) (p : TypePath) (bounds : List Bound) (generics : GenericsMap)
    → HasPlainStart p.path.segments
    → add_predicate (on_type lifetimes (path p) bounds) generics ≡ panic
unfolding add_predicate add_bounded
add_predicate-panic lifetimes p bounds generics h = assert_panic (not lifetimes) _ (
    assert_panic (is_none p.qself) _ (
      assert_panic (not p.path.leading_colon) _
        (plain_start-panic p.path.segments bounds generics h)))

module _ (pred : WherePredicate)
    (panics : (generics : GenericsMap) → add_predicate pred generics ≡ panic) where
  add_predicates-panic :
      (before after : List WherePredicate) (generics : GenericsMap)
      → add_predicates (before ++ pred ∷ after) generics ≡ panic
  unfolding add_predicates
  add_predicates-panic [] after generics = rw (panics generics)
  add_predicates-panic (other ∷ before) after generics =
      then_panic (add_predicate other generics) _ (add_predicate-defined other generics)
        (λ generics'. add_predicates-panic before after generics')

-- `dyn_fn_sig` panics on each signature with a `where` clause in which a bound type is a path of
-- one segment, or a path whose first segment has no arguments.
pub dyn_fn_sig-where :
    (parse : Quoted → Option SynType) (sig : Signature) (before after : List WherePredicate)
    (lifetimes : Bool) (p : TypePath) (bounds : List Bound)
    → sig.where_clause ≡ some (before ++ on_type lifetimes (path p) bounds ∷ after)
    → HasPlainStart p.path.segments
    → dyn_fn_sig parse sig ≡ panic
unfolding dyn_fn_sig add_where
dyn_fn_sig-where parse sig before after lifetimes p bounds e h =
    assert_panic (not sig.constness) _ (
      assert_panic (not sig.asyncness) _ (
        assert_panic (is_none sig.abi) _ (
          assert_panic (is_none sig.variadic) _ (
            then_panic (add_params sig.params []) _ (add_params-defined sig.params []) (λ generics.
              rw
                (
                  e,
                  add_predicates-panic _ (λ g. add_predicate-panic lifetimes p bounds g h) before
                      after generics,
                )
                refl)))))
