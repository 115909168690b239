-- ===== src/DynDerive/Laws/Generated.antt =====
-- The items that dyn-derive/src/lib.rs generates for a trait.
use buffer.Common.{
  ℕ, suc, ◌+◌, Outcome, ok, ◌>>=◌, Option, none, some, List, [], ◌∷◌, ◌++◌, length, get_elem?, drop,
  Bool, true, false, if◌then◌else◌, ◌≡◌, ◌≢◌, refl, sym, length-map, ◌∙◌, ap, ap₂, Bool-cases, inl,
  inr,
}
use native.Mathlib.Numerals.{add-one}
use Prim.Native.String.{String, ◌++◌ as ◌<>◌}
use buffer.DynDerive.Syntax.{no_arguments, Segment, SynPath, Bound, trait, lifetime, unwrap}
use buffer.DynDerive.Config.{Config}
use buffer.DynDerive.KnownTraits.{
  Table, known_traits, get_key_value, path_eq, recognize, vtable_of, keep,
}
use buffer.DynDerive.Items.{
  HasImpl, DynItems, ItemTrait, methods_of, constructor_of, fields_of, fns_of, byte_helpers, last,
  new_ident, has_impl, has_impls_of, construct_dyn_items,
}
use buffer.DynDerive.Laws.Paths.{All}
use buffer.DynDerive.Laws.Access.{
  Reads, names, methods_of-Reads, names-methods_of, get-drop, get_elem?-map,
}

-- The names of the methods of all implementations, in order.
abbrev pub all_names : List HasImpl → List String
all_names [] = []
all_names (h ∷ has_impls) = names h.methods ++ all_names has_impls

-- Each method returns the function of its name, with its type, and there is one for each function
-- behind the helpers, in order; there is one implementation for each field.
pub record IsConsistent (items : DynItems) : Type 0 where
  pub methods_read :
      All
        (λ (h : HasImpl). All (Reads items.vtable_constructor items.vtable_fields) h.methods)
        items.has_impls
  pub methods_complete : items.fns_defs ≡ byte_helpers ++ all_names items.has_impls
  pub one_each : length items.vtable_fields ≡ length items.has_impls

-- Bounds have at least one segment, in Rust.
abbrev pub HasSegments : Bound → Type 0
HasSegments (trait _ _ path) = path.segments ≢ []
HasSegments (lifetime _) = Unit

module _ (is_ident : String → Bool) where
  -- The name of the trait `Has..` is an identifier.
  abbrev HasName : Table → Type 0
  HasName t = (s : Segment) × (last t.0.segments ≡ some s) × (is_ident ("Has" <> s.ident) ≡ true)

  module _ (crate_name vtable_name : String) (all : List Table) where
    abbrev Built : ℕ → List Table → Type 0
    Built i tables =
        (has_impls : List HasImpl) × (has_impls_of is_ident crate_name vtable_name i tables
          ≡ ok has_impls)
        × All (λ (h : HasImpl). All (Reads (constructor_of all) (fields_of all)) h.methods)
            has_impls
        × (fns_of tables ≡ all_names has_impls)
        × (length tables ≡ length has_impls)

    has_impls_of-Built :
        (i : ℕ) (tables : List Table) → All HasName tables → drop i all ≡ tables → Built i tables
    unfolding has_impls_of has_impl fns_of new_ident constructor_of fields_of
    has_impls_of-Built i [] h e = ([], refl, tt, refl, refl)
    has_impls_of-Built i ((path, table) ∷ tables) ((s, l, id), h) e =
        let (at, next) = get-drop i all e in
        let (impls, f, reads, complete, one) =
          has_impls_of-Built (i + 1) tables h (rw add-one next) in
        (
          record {
            crate_name = crate_name;
            has_trait = "Has" <> s.ident;
            vtable_name = vtable_name;
            methods = methods_of i table;
          }
              ∷ impls,
          rw (l, id, f),
          (
            methods_of-Reads _ _ i table (get_elem?-map _ all i at) (get_elem?-map _ all i at),
            reads,
          ),
          ap₂ (λ xs ys. xs ++ ys) (sym (names-methods_of i table)) complete,
          ap suc one,
        )

  -- What a search finds, if it finds something.
  abbrev IfSome : (Table → Type 0) → Option Table → Type 0
  IfSome P none = Unit
  IfSome P (some t) = P t

  get_key_value-All :
      (P : Table → Type 0) (tables : List Table) (path : SynPath)
      → All P tables
      → IfSome P (get_key_value tables path)
  unfolding get_key_value
  get_key_value-All P [] path h = tt
  get_key_value-All P ((key, table) ∷ tables) path h = elim (Bool-cases (path_eq key path)) [
    | inl e ↦ rw e h.0
    | inr e ↦ rw e (get_key_value-All P tables path h.1)
  ]

  Finds : Outcome (Option Table) → Type 0
  Finds m = (o : Option Table) × (m ≡ ok o) × IfSome HasName o

  module _ (known : All HasName known_traits) where
    look_up-Finds :
        (path : SynPath) (segments : List Segment)
        → segments ≢ []
        → Finds (
            unwrap (get_elem? segments 0) >>= λ seg.
            ok (if no_arguments seg.arguments then get_key_value known_traits path else none))
    unfolding Finds
    look_up-Finds path [] h = absurd (h refl)
    look_up-Finds path (seg ∷ segments) h = elim (Bool-cases (no_arguments seg.arguments)) [
      | inl e ↦
          (get_key_value known_traits path, rw e, get_key_value-All HasName known_traits path known)
      | inr e ↦ (none, rw e, tt)
    ]

    recognize-Finds : (bound : Bound) → HasSegments bound → Finds (recognize bound)
    unfolding Finds recognize
    recognize-Finds (trait true modifier path) h = (none, refl, tt)
    recognize-Finds (trait false true path) h = (none, refl, tt)
    recognize-Finds (trait false false path) h = look_up-Finds path path.segments h
    recognize-Finds (lifetime _) h = (none, refl, tt)

    keep-HasName :
        (o : Option Table) (tables : List Table)
        → IfSome HasName o
        → All HasName tables
        → All HasName (keep o tables)
    keep-HasName none tables h k = k
    keep-HasName (some t) tables h k = (h, k)

    vtable_of-HasName :
        (bounds : List Bound)
        → All HasSegments bounds
        → (tables : List Table) × (vtable_of bounds ≡ ok tables) × All HasName tables
    unfolding vtable_of Finds
    vtable_of-HasName [] h = ([], refl, tt)
    vtable_of-HasName (bound ∷ bounds) h =
        let (o, e, n) = recognize-Finds bound h.0 in
        let (tables, f, ns) = vtable_of-HasName bounds h.1 in
        (keep o tables, rw (e, f), keep-HasName o tables n ns)

  abbrev pub has_names : List String
  has_names = "HasClone" ∷ "HasPartialEq" ∷ "HasEq" ∷ "HasHash" ∷ "HasDebug" ∷ []

  known-HasName : All (λ n. is_ident n ≡ true) has_names → All HasName known_traits
  unfolding last
  known-HasName (a, (b, (c, (d, (e, _))))) =
      ((_, refl, a), ((_, refl, b), ((_, refl, c), ((_, refl, d), ((_, refl, e), tt)))))

  module _ (item_trait : ItemTrait) (config : Config)
      (idents : All (λ n. is_ident n ≡ true) has_names) (no_params : item_trait.params ≡ [])
      (no_where : item_trait.where_clause ≡ none)
      (vtable_ident : is_ident (item_trait.ident <> config.suffix) ≡ true)
      (crate_ident : is_ident config.dyn_crate_name ≡ true)
      (segments : All HasSegments item_trait.supertraits) where
    -- For a trait without generics and `where` clause, whose supertraits have paths that are not
    -- empty, and for names that are identifiers, `construct_dyn_items` returns items in which
    -- each method of each `Has..` implementation reads, of the value that `build_vtable`
    -- constructs, the function of the name of the method, and of the types of the fields, the
    -- type that it returns; the methods of all implementations are, in order, the functions that
    -- `build_vtable` declares behind its four helpers, and there is one implementation for each
    -- field.
    pub construct_dyn_items-IsConsistent :
        (items : DynItems) × (construct_dyn_items is_ident item_trait config ≡ ok items)
        × IsConsistent items
    unfolding construct_dyn_items new_ident fields_of constructor_of
    construct_dyn_items-IsConsistent =
        let (tables, e, named) =
          vtable_of-HasName (known-HasName idents) item_trait.supertraits segments in
        let (has_impls, f, reads, complete, one) =
          has_impls_of-Built config.dyn_crate_name (item_trait.ident <> config.suffix) tables 0
            tables named refl in
        (
          record {
            vis = item_trait.vis;
            vtable_name = item_trait.ident <> config.suffix;
            vtable_fields = fields_of tables;
            has_impls = has_impls;
            trait_name = item_trait.ident;
            crate_name = config.dyn_crate_name;
            fns_defs = byte_helpers ++ fns_of tables;
            vtable_constructor = constructor_of tables;
          },
          rw (no_params, no_where, vtable_ident, e, crate_ident, f) refl,
          record {
            methods_read = reads;
            methods_complete = ap (byte_helpers ++◌) complete;
            one_each = length-map _ tables ∙ one;
          },
        )
