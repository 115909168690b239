-- ===== src/DynDerive/Laws/Checks.antt =====
-- What the two checks of dyn-derive/src/lib.rs let pass.
use buffer.Common.{
  Outcome, ok, panic, assert, ◌>>◌, Bool, true, false, ◌&&◌, Option, none, some, List, [], ◌∷◌,
  ◌++◌, if◌then◌else◌, ◌≡◌, refl, ap, ap₂, ◌⊎◌, inl, inr, ◌↔◌, arith, sym,
}
use Prim.Native.String.{String}
use text.Mathlib.Text.{◌==◌ as str_eq}
use text.Mathlib.TextEquality.{eq_iff}
use buffer.DynDerive.Syntax.{
  PathArguments, absent, empty_brackets, given, no_arguments, SynPath, Segment, TypePath, SynType,
  array, bare_fn, group, impl_trait, paren, path, ptr, reference, slice, trait_object, tuple, other,
  Types, nil, cons, ReturnType, default, returns, plain,
}
use buffer.DynDerive.SelfType.{
  is_none, is_self, check_for_unsupported_self, check_selves, check_self_output,
  check_self_segments, check_self_path,
}
use buffer.DynDerive.Generics.{
  GenericsMap, check_for_unsupported_generics, check_generics, check_generic_output,
  check_generic_path, check_generic_segments,
}
use buffer.DynDerive.Laws.Paths.{
  is_single, checked_paths, checked_paths_all, checked_paths_output, All, IsOnlySelf, All-append,
  All-left, All-right,
}

-- A check returns nothing, and nothing is undefined in it.
pub Decides : Type 0 → Outcome (Unit {0}) → Type 0
Decides P m = ((m ≡ ok tt) × P) ⊎ ((m ≡ panic) × (¬ P))

Decides-both :
    (P Q : Type 0) (m n : Outcome (Unit {0})) → Decides P m → Decides Q n → Decides (P × Q) (m >> n)
unfolding Decides
Decides-both P Q m n (inl (e, p)) (inl (f, q)) = inl (rw (e, f), (p, q))
Decides-both P Q m n (inl (e, p)) (inr (f, q)) = inr (rw (e, f), λ h. q h.1)
Decides-both P Q m n (inr (e, p)) d = inr (rw e, λ h. p h.0)

Decides-iff : (P Q : Type 0) (m : Outcome (Unit {0})) → (P ↔ Q) → Decides P m → Decides Q m
unfolding Decides
Decides-iff P Q m f (inl (e, p)) = inl (e, f.0 p)
Decides-iff P Q m f (inr (e, p)) = inr (e, λ h. p (f.1 h))

assert-Decides : (b : Bool) → Decides (b ≡ true) (assert b)
unfolding Decides
assert-Decides true = inl (refl, refl)
assert-Decides false = inr (refl, cc)

Decides-ok : Decides (Unit {0}) (ok tt)
unfolding Decides
Decides-ok = inl (refl, tt)

is_none_iff : (q : Option String) → (is_none q ≡ true) ↔ (q ≡ none)
is_none_iff none = (λ h. refl, λ h. refl)
is_none_iff (some x) = (cc, cc)

name_iff : (n : String) → (str_eq "Self" n ≡ true) ↔ (some n ≡ some "Self")
name_iff n = (λ e. ap some (sym ((eq_iff "Self" n).0 e)), λ e. grind (arith, eq_iff "Self" n))

name-Decides :
    (n : String) → Decides (true ≡ true → some n ≡ some "Self") (assert (str_eq "Self" n))
name-Decides n =
    Decides-iff _ _ _ (λ e _. (name_iff n).0 e, λ h. (name_iff n).1 (h refl))
      (assert-Decides (str_eq "Self" n))

check_self_name-Decides :
    (arguments : PathArguments) (n : String)
    → Decides
        (true ≡ true → (if no_arguments arguments then some n else none) ≡ some "Self")
        (assert (no_arguments arguments && str_eq "Self" n))
unfolding Decides
check_self_name-Decides absent n = name-Decides n
check_self_name-Decides empty_brackets n = name-Decides n
check_self_name-Decides (given _) n = inr (refl, λ h. cc (h refl))

check_self_segments-Decides :
    (colon : Bool) (segments : List Segment)
    → let p : SynPath = record { leading_colon = colon; segments = segments } in
      Decides (is_single p ≡ true → plain p ≡ some "Self") (check_self_segments colon segments)
unfolding Decides check_self_segments is_self
check_self_segments-Decides true segments = inl (refl, λ h. cc h)
check_self_segments-Decides false [] = inl (refl, λ h. cc h)
check_self_segments-Decides false (seg ∷ []) = check_self_name-Decides seg.arguments seg.ident
check_self_segments-Decides false (seg ∷ next ∷ rest) = inl (refl, λ h. ground arith)

check_self_path-Decides : (p : TypePath) → Decides (IsOnlySelf p) (check_self_path p)
unfolding check_self_path
check_self_path-Decides p =
    Decides-both _ _ _ _
      (Decides-iff _ _ _ (is_none_iff p.qself) (assert-Decides (is_none p.qself)))
      (check_self_segments-Decides p.path.leading_colon p.path.segments)

All-both :
    (P : TypePath → Type 0) (xs ys : List TypePath) → (All P xs × All P ys) ↔ All P (xs ++ ys)
All-both P xs ys = (λ h. All-append P xs ys h.0 h.1, λ h. (All-left P xs ys h, All-right P xs ys h))

mutual
  unfolding check_for_unsupported_self checked_paths

  check-Decides :
      (ty : SynType) → Decides (All IsOnlySelf (checked_paths ty)) (check_for_unsupported_self ty)
  check-Decides (array elem len) = check-Decides elem
  check-Decides (bare_fn inputs output) =
      Decides-iff _ _ _ (All-both _ (checked_paths_all inputs) _)
        (Decides-both _ _ _ _ (check_selves-Decides inputs) (check_output-Decides output))
  check-Decides (group elem) = check-Decides elem
  check-Decides (impl_trait bounds) = Decides-ok
  check-Decides (paren elem) = check-Decides elem
  check-Decides (path p) = Decides-iff _ _ _ (λ h. (h, tt), λ h. h.0) (check_self_path-Decides p)
  check-Decides (ptr m elem) = check-Decides elem
  check-Decides (reference l m elem) = check-Decides elem
  check-Decides (slice elem) = check-Decides elem
  check-Decides (trait_object d bounds) = Decides-ok
  check-Decides (tuple elems) = check_selves-Decides elems
  check-Decides (other text) = Decides-ok

  check_selves-Decides :
      (ts : Types) → Decides (All IsOnlySelf (checked_paths_all ts)) (check_selves ts)
  check_selves-Decides nil = Decides-ok
  check_selves-Decides (cons t ts) =
      Decides-iff _ _ _ (All-both _ (checked_paths t) _)
        (Decides-both _ _ _ _ (check-Decides t) (check_selves-Decides ts))

  check_output-Decides :
      (r : ReturnType) → Decides (All IsOnlySelf (checked_paths_output r)) (check_self_output r)
  check_output-Decides default = Decides-ok
  check_output-Decides (returns t) = check-Decides t

Decides-iff-ok :
    (P : Type 0) (m : Outcome (Unit {0})) → Decides P m → (m ≡ ok tt ↔ P) × (m ≡ panic ↔ ¬ P)
unfolding Decides
Decides-iff-ok P m (inl (e, p)) = ((λ _. p, λ _. e), (λ f. cc, λ np. absurd (np p)))
Decides-iff-ok P m (inr (e, np)) = ((λ f. cc, λ p. absurd (np p)), (λ _. np, λ _. e))

pub check_for_unsupported_self_lem :
    (ty : SynType)
    → (check_for_unsupported_self ty ≡ ok tt ↔ All IsOnlySelf (checked_paths ty))
      × (check_for_unsupported_self ty ≡ panic ↔ ¬ All IsOnlySelf (checked_paths ty))
check_for_unsupported_self_lem ty = Decides-iff-ok _ _ (check-Decides ty)

segments_generics_self :
    (colon : Bool) (segments : List Segment)
    → check_generic_segments colon segments ≡ check_self_segments colon segments
unfolding check_generic_segments check_self_segments
segments_generics_self true segments = refl
segments_generics_self false [] = refl
segments_generics_self false (seg ∷ []) = refl
segments_generics_self false (seg ∷ next ∷ rest) = refl

path_generics_self : (p : TypePath) → check_generic_path p ≡ check_self_path p
unfolding check_generic_path check_self_path
path_generics_self p =
    ap (λ m. assert (is_none p.qself) >> m)
      (segments_generics_self p.path.leading_colon p.path.segments)

mutual
  unfolding check_for_unsupported_self check_for_unsupported_generics check_self_path
      check_generic_path

  generics_self :
      (ty : SynType) (generics : GenericsMap)
      → check_for_unsupported_generics ty generics ≡ check_for_unsupported_self ty
  generics_self (array elem len) generics = generics_self elem generics
  generics_self (bare_fn inputs output) generics =
      ap₂ (λ m n. m >> n) (all_generics_self inputs generics) (output_generics_self output generics)
  generics_self (group elem) generics = generics_self elem generics
  generics_self (impl_trait bounds) generics = refl
  generics_self (paren elem) generics = generics_self elem generics
  generics_self (path p) generics = path_generics_self p
  generics_self (ptr m elem) generics = generics_self elem generics
  generics_self (reference l m elem) generics = generics_self elem generics
  generics_self (slice elem) generics = generics_self elem generics
  generics_self (trait_object d bounds) generics = refl
  generics_self (tuple elems) generics = all_generics_self elems generics
  generics_self (other text) generics = refl

  all_generics_self :
      (ts : Types) (generics : GenericsMap) → check_generics ts generics ≡ check_selves ts
  all_generics_self nil generics = refl
  all_generics_self (cons t ts) generics =
      ap₂ (λ m n. m >> n) (generics_self t generics) (all_generics_self ts generics)

  output_generics_self :
      (r : ReturnType) (generics : GenericsMap)
      → check_generic_output r generics ≡ check_self_output r
  output_generics_self default generics = refl
  output_generics_self (returns t) generics = generics_self t generics

-- `check_for_unsupported_generics` does, with any map of generics, what
-- `check_for_unsupported_self` does.
pub check_for_unsupported_generics_lem :
    (ty : SynType) (generics : GenericsMap)
    → check_for_unsupported_generics ty generics ≡ check_for_unsupported_self ty
check_for_unsupported_generics_lem ty generics = generics_self ty generics
