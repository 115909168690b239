-- ===== src/Cache.antt =====
-- The program of examples/cache.rs: it fills buffers with computed values, first by computing each,
-- then by cloning those that a table keeps. The times that it prints are left out.
pub mod Laws
use buffer.Common.{
  ℕ, zero, suc, List, [], ◌∷◌, ◌==◌, if◌then◌else◌, Option, none, some, false, replicate, Outcome,
  ok,
}
use buffer.Common.Effects.{Eff, pure, lift, ◌>>=◌, ◌>>◌}
use buffer.Std.Platform.{Platform}
use buffer.Bytes.{Repr}
use buffer.Traits.{Impls}
use buffer.Value.{BoxValue}
use buffer.Value.Boxed
use buffer.VecDyn as Dyn
use buffer.VecDyn.{VecDyn}
use buffer.VecDyn.Build
use buffer.VecDyn.Typed
use buffer.DynDerive.Syntax.{trait, name}
use buffer.DynDerive.KnownTraits.{std_path}
use buffer.DynDerive.Items.{ItemTrait}

-- `rand`: a generator of type `R` from the bytes of a seed, and the calls that advance it.
-- `next_alphanumeric` is the iterator of `sample_iter(&Alphanumeric)`.
pub record Rng (R : Type 0) : Type 0 where
  pub from_seed : List ℕ → R
  pub gen_u8 : R → ℕ × R
  pub gen_u128 : R → ℕ × R
  pub next_alphanumeric : R → ℕ × R

-- `Rc<T>` of the standard library, at a type `A` over a world `W`: how its pointers, of type `P`,
-- are made, cloned and dropped.
pub record RcOf (A P W : Type 0) : Type 0 where
  pub repr : Repr P
  pub impls : Impls P W
  pub new : A → W → P × W

-- `trait HTValue: Clone + PartialEq + Eq + std::hash::Hash + std::fmt::Debug {}`
abbrev pub ht_value : ItemTrait
ht_value = record {
  vis = "";
  ident = "HTValue";
  params = [];
  where_clause = none;
  supertraits =
      trait false false (name "Clone")
      ∷ trait false false (name "PartialEq")
      ∷ trait false false (name "Eq")
      ∷ trait false false (std_path "hash" "Hash")
      ∷ trait false false (std_path "fmt" "Debug")
      ∷ [];
  rest = "{}";
}

-- `[u128; 3]`
abbrev pub Ints : Type 0
Ints = ℕ × ℕ × ℕ

-- `HashMap<u8, BoxValue<HTValueVTable>>`, as its entries, the newest first.
abbrev pub HashMap : Type 0 → Type 0
HashMap W = List (ℕ × BoxValue W)

pub lookup {ℓ} : {V : Type ℓ} → ℕ → List (ℕ × V) → Option V
lookup k [] = none
lookup k ((j, v) ∷ entries) = if j == k then some v else lookup k entries

module _ {R : Type 0} (rng : Rng R) where
  abbrev pub seeded : ℕ → R
  seeded seed = rng.from_seed (replicate 32 seed)

  unfoldable pub costly_computation_int : ℕ → Ints
  costly_computation_int seed =
      let (a, r) = rng.gen_u128 (seeded seed) in
      let (b, r') = rng.gen_u128 r in let (c, r'') = rng.gen_u128 r' in (a, b, c)

  -- `sample_iter(&Alphanumeric).take(n)`
  unfoldable pub take_chars : ℕ → R → List ℕ
  take_chars zero r = []
  take_chars (suc n) r = let (c, r') = rng.next_alphanumeric r in c ∷ take_chars n r'

  -- `collect` is that into a `String`, which is the type `T`.
  unfoldable pub costly_computation_str : {T : Type 0} → (List ℕ → T) → ℕ → T
  costly_computation_str collect seed = collect (take_chars 30 (seeded seed))

module _ {W : Type 0} where
  -- `cache.entry(seed).or_insert_with(make)`: the value of the entry, and the table.
  unfoldable pub or_insert_with :
      HashMap W → ℕ → Eff W (BoxValue W) → Eff W (BoxValue W × HashMap W)
  or_insert_with cache seed make = elim (lookup seed cache) [
    | some value ↦ pure (value, cache)
    | none ↦ do value ← make; pure (value, (seed, value) ∷ cache)
  ]

  -- What the table holds is dropped.
  unfoldable pub drop_entries : HashMap W → Eff W (Unit {0})
  drop_entries [] = pure tt
  drop_entries ((_, value) ∷ cache) = do Boxed.drop value; drop_entries cache

abbrev pub iterations : ℕ
iterations = 50000

module _ (p : Platform) {R T W : Type 0} (rng : Rng R) (collect : List ℕ → T) (ints : Repr Ints)
    (ints_impls : Impls Ints W) (strs : Repr T) (strs_impls : Impls T W) where
  -- The first loop, `n` times: the generator and the buffers after it.
  unfoldable pub plain_loop : ℕ → R → VecDyn W → VecDyn W → Eff W (R × VecDyn W × VecDyn W)
  plain_loop zero r int_values str_values = pure (r, int_values, str_values)
  plain_loop (suc n) r int_values str_values = do
    let (seed, r') = rng.gen_u8 r
    is ← Typed.push p ints ints_impls int_values (costly_computation_int rng seed)
    ss ← Typed.push p strs strs_impls str_values (costly_computation_str rng collect seed)
    plain_loop n r' is.0 ss.0

  -- The first block: the buffers are dropped at its end, the last one first.
  unfoldable pub plain_block : ℕ → R → Eff W R
  plain_block n r = do
    int_values ← lift (Build.with_type ints ints_impls)
    str_values ← lift (Build.with_type strs strs_impls)
    (r', int_values', str_values') ← plain_loop n r int_values str_values
    Dyn.drop_all str_values'
    Dyn.drop_all int_values'
    pure r'

module _ {R P W : Type 0} (rng : Rng R) (ints : RcOf Ints P W) where
  -- `Value::new(Rc::new(costly_computation_int(seed)))`
  unfoldable pub make_value : ℕ → Eff W (BoxValue W)
  make_value seed = do
    q ← (λ w. ok (ints.new (costly_computation_int rng seed) w))
    lift (Boxed.new ints.repr ints.impls q)

module _ (p : Platform) {R P W : Type 0} (rng : Rng R) (ints : RcOf Ints P W) where
  -- The second loop: the generator, the table and the buffers after it. The entry for the strings
  -- is that of the integers, and made in the same way.
  unfoldable pub cached_loop :
      ℕ → R → HashMap W → VecDyn W → VecDyn W → Eff W (R × HashMap W × VecDyn W × VecDyn W)
  cached_loop zero r cache int_values str_values = pure (r, cache, int_values, str_values)
  cached_loop (suc n) r cache int_values str_values = do
    let (seed, r') = rng.gen_u8 r
    (int_value, cache') ← or_insert_with cache seed (make_value rng ints seed)
    is ← Dyn.push_cloned p int_values (Boxed.as_ref int_value)
    (str_value, cache'') ← or_insert_with cache' seed (make_value rng ints seed)
    ss ← Dyn.push_cloned p str_values (Boxed.as_ref str_value)
    cached_loop n r' cache'' is.0 ss.0

  module _ {S T : Type 0} (strs : RcOf T S W) where
    -- The second block: the buffers are dropped at its end, and then the table.
    unfoldable pub cached_block : ℕ → R → Eff W (Unit {0})
    cached_block n r = do
      int_values ← lift (Build.with_type ints.repr ints.impls)
      str_values ← lift (Build.with_type strs.repr strs.impls)
      (_, cache, int_values', str_values') ← cached_loop n r [] int_values str_values
      Dyn.drop_all str_values'
      Dyn.drop_all int_values'
      drop_entries cache

    module _ (collect : List ℕ → T) (plain_ints : Repr Ints) (ints_impls : Impls Ints W)
        (plain_strs : Repr T) (strs_impls : Impls T W) where
      unfoldable pub main : Eff W (Unit {0})
      main = do
        let r = seeded rng 3
        r' ← plain_block p rng collect plain_ints ints_impls plain_strs strs_impls iterations r
        cached_block iterations r'
