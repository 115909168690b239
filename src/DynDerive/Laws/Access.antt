-- ===== src/DynDerive/Laws/Access.antt =====
-- What the methods that dyn-derive/src/lib.rs generates read.
use buffer.Common.{
  ℕ, zero, suc, ◌+◌, Option, none, some, List, [], ◌∷◌, map, get_elem?, drop, ◌≡◌, refl, ap,
}
use native.Mathlib.Numerals.{add-one}
use Prim.Native.String.{String}
use buffer.DynDerive.KnownTraits.{KnownFn, fn_name, fn_type}
use buffer.DynDerive.Items.{
  Grouped, single, tuple, parens, Access, field, field_at, Method, tuple_methods, methods_of,
}
use buffer.DynDerive.Laws.Paths.{All}

module _ {ℓ} {A : Type ℓ} where
  abbrev pub part : ℕ → Option (Grouped A) → Option A
  part j none = none
  part j (some (single _)) = none
  part j (some (tuple as')) = get_elem? as' j

  abbrev pub whole : Option (Grouped A) → Option A
  whole none = none
  whole (some (single a)) = some a
  whole (some (tuple _)) = none

  -- `self.i` and `(self.i).j` in Rust, where the parts of `self` are given.
  abbrev pub read : Access → List (Grouped A) → Option A
  read (field i) self_parts = whole (get_elem? self_parts i)
  read (field_at i j) self_parts = part j (get_elem? self_parts i)

  pub get-drop :
      (j : ℕ) (xs : List A) {x : A} {rest : List A}
      → drop j xs ≡ x ∷ rest
      → (get_elem? xs j ≡ some x) × (drop (suc j) xs ≡ rest)
  get-drop zero [] h = cc
  get-drop zero (y ∷ xs) h = (cc, cc)
  get-drop (suc j) [] h = cc
  get-drop (suc j) (y ∷ xs) h = get-drop j xs h

pub get_elem?-map {ℓ κ} :
    {A : Type ℓ} {B : Type κ} (f : A → B) (xs : List A) (j : ℕ) {x : A}
    → get_elem? xs j ≡ some x
    → get_elem? (map f xs) j ≡ some (f x)
get_elem?-map f [] j h = cc
get_elem?-map f (y ∷ xs) zero h = cc
get_elem?-map f (y ∷ xs) (suc j) h = get_elem?-map f xs j h

-- A method returns the function of its name, which has its type.
abbrev pub Reads : List (Grouped String) → List (Grouped String) → Method → Type 0
Reads constructor fields m =
    (read m.body constructor ≡ some m.name) × (read m.body fields ≡ some m.ty)

module _ (constructor fields : List (Grouped String)) (i : ℕ) where
  tuple_methods-Reads :
      (all table : List KnownFn) (j : ℕ)
      → drop j all ≡ table
      → get_elem? constructor i ≡ some (tuple (map fn_name all))
      → get_elem? fields i ≡ some (tuple (map fn_type all))
      → All (Reads constructor fields) (tuple_methods i j table)
  unfolding tuple_methods
  tuple_methods-Reads all [] j e c f = tt
  tuple_methods-Reads all (fn ∷ table) j e c f =
      let (at, next) = get-drop j all e in
      (
        (rw c (get_elem?-map fn_name all j at), rw f (get_elem?-map fn_type all j at)),
        tuple_methods-Reads all table (j + 1) (rw add-one next) c f,
      )

  pub methods_of-Reads :
      (table : List KnownFn)
      → get_elem? constructor i ≡ some (parens (map fn_name table))
      → get_elem? fields i ≡ some (parens (map fn_type table))
      → All (Reads constructor fields) (methods_of i table)
  unfolding methods_of tuple_methods
  methods_of-Reads [] c f = tt
  methods_of-Reads (fn ∷ []) c f = ((rw c, rw f), tt)
  methods_of-Reads (fn ∷ fn' ∷ table) c f =
      tuple_methods-Reads (fn ∷ fn' ∷ table) (fn ∷ fn' ∷ table) 0 refl c f

-- The names of methods.
abbrev pub names : List Method → List String
names methods = map (λ (m : Method). m.name) methods

names-tuple_methods :
    (i j : ℕ) (table : List KnownFn) → names (tuple_methods i j table) ≡ map fn_name table
unfolding tuple_methods
names-tuple_methods i j [] = refl
names-tuple_methods i j (fn ∷ table) = ap (fn_name fn ∷◌) (names-tuple_methods i (j + 1) table)

pub names-methods_of :
    (i : ℕ) (table : List KnownFn) → names (methods_of i table) ≡ map fn_name table
unfolding methods_of
names-methods_of i [] = names-tuple_methods i 0 []
names-methods_of i (fn ∷ []) = refl
names-methods_of i (fn ∷ fn' ∷ table) = names-tuple_methods i 0 (fn ∷ fn' ∷ table)
