-- ===== src/Elements/Laws.antt =====
-- What the loops over elements come to on typed values.
use buffer.Common.{
  suc, zero, ◌≡◌, refl, ap, ℕ, ◌+◌, ◌*◌, ◌≤◌, List, [], ◌∷◌, ◌++◌, map, length, drop, ok, arith,
  append-nil, append_assoc,
}
use buffer.Std.Platform.{Platform, isize_max}
use buffer.Std.Slice.{concat}
use buffer.Std.Vec.{vec}
use buffer.Bytes.{Repr, RefMut}
use buffer.Traits.{Impls, drop_bytes, clone_from_bytes}
use buffer.Traits.Laws.{drop_bytes_lem, clone_from_bytes_lem}
use buffer.VecCopy.{VecCopy, byte_chunks, byte_chunks_mut, with_items}
use buffer.VecCopy.Holds.{Holds}
use buffer.VecCopy.Laws.Erased.{byte_chunks_refines}
use buffer.VecCopy.Laws.Push.{push_refines, snoc_byte_length}
use buffer.Elements.{drop_each, clone_from_each, push_clones, assign_clones, clone_slice}

-- The world after the values are dropped, from the first on.
abbrev pub drop_values : {A W : Type 0} → Impls A W → List A → W → W
drop_values impls [] w = w
drop_values impls (x ∷ xs) w = drop_values impls xs (impls.drop x w)

-- A call for each of the values, from the first on: the results, and the world after them.
abbrev pub thread : {A W : Type 0} → (A → W → A × W) → List A → W → List A × W
thread f [] w = ([], w)
thread f (x ∷ xs) w = let (y, w') = f x w in let (ys, w'') = thread f xs w' in (y ∷ ys, w'')

pub length-thread :
    {A W : Type 0} (f : A → W → A × W) (xs : List A) (w : W) → length (thread f xs w).0 ≡ length xs
length-thread f [] w = refl
length-thread f (x ∷ xs) w = ap suc (length-thread f xs _)

pub byte_chunks_mut_refines :
    {A : Type 0} (t : Repr A) {v : VecCopy} {xs : List A}
    → Holds t v xs
    → (r : RefMut (List (List ℕ)) VecCopy) × (byte_chunks_mut v ≡ ok r)
      × (r.value ≡ map t.to_bytes xs)
unfolding byte_chunks_mut byte_chunks
byte_chunks_mut_refines t {v} {xs} h =
    let pieces = map t.to_bytes xs in
    (
      record {
        value = pieces;
        put = λ ds.
            with_items v
              (vec (concat ds ++ drop (length (concat pieces)) v.items.items) v.items.capacity);
      },
      rw (byte_chunks_refines t h),
      refl,
    )

-- `Clone::clone_from` unless a type has another one: a clone takes the place of the old value,
-- which is dropped.
abbrev pub default_clone_from : {A W : Type 0} → Impls A W → A → A → W → A × W
default_clone_from impls dst src w = let (y, w') = impls.clone src w in (y, impls.drop dst w')

-- A clone of `def`, then the old value is dropped.
abbrev pub replace_by : {A W : Type 0} → Impls A W → A → A → W → A × W
replace_by impls def x w = let (y, w') = impls.clone def w in (y, impls.drop x w')

module _ {A W : Type 0} (t : Repr A) (impls : Impls A W) where
  pub drop_each_lem :
      (xs : List A) (w : W)
      → drop_each (drop_bytes t impls) (map t.to_bytes xs) w ≡ ok (tt, drop_values impls xs w)
  unfolding drop_each
  drop_each_lem [] w = refl
  drop_each_lem (x ∷ xs) w = rw (drop_bytes_lem t impls x w, drop_each) (drop_each_lem xs _)

  pub clone_from_each_lem :
      (xs : List A) (w : W)
      → let new = thread (λ x. impls.clone_from x x) xs w in
        clone_from_each (clone_from_bytes t impls) (map t.to_bytes xs) (map t.to_bytes xs) w
        ≡ ok (map t.to_bytes new.0, new.1)
  unfolding clone_from_each
  clone_from_each_lem [] w = refl
  clone_from_each_lem (x ∷ xs) w =
      rw (clone_from_bytes_lem t impls x x w, clone_from_each) (rw (clone_from_each_lem xs _))

module _ {A W : Type 0} (impls : Impls A W) where
  pub clone_slice_lem :
      (xs : List A) (w : W) → clone_slice impls xs w ≡ ok (thread impls.clone xs w)
  unfolding clone_slice
  clone_slice_lem [] w = refl
  clone_slice_lem (x ∷ xs) w = rw (clone_slice_lem xs (impls.clone x w).1, clone_slice)

  pub assign_clones_lem :
      (def : A) (xs : List A) (w : W)
      → assign_clones impls def xs w ≡ ok (thread (replace_by impls def) xs w)
  unfolding assign_clones
  assign_clones_lem def [] w = refl
  assign_clones_lem def (x ∷ xs) w =
      rw (assign_clones_lem def xs (impls.drop x (impls.clone def w).1), assign_clones)

-- The values that `n` clones of `x` give one after the other, and the world after them.
abbrev pub clones : {A W : Type 0} → Impls A W → ℕ → A → W → List A × W
clones impls zero x w = ([], w)
clones impls (suc n) x w =
    let (y, w') = impls.clone x w in let (ys, w'') = clones impls n x w' in (y ∷ ys, w'')

module _ (p : Platform) {A W : Type 0} (t : Repr A) (impls : Impls A W) where
  pub push_clones_lem :
      (n : ℕ) {v : VecCopy} {xs : List A} (x : A)
      → Holds t v xs
      → length v.items.items + n * t.size_of ≤ isize_max
      → (w : W)
      → (u : VecCopy) × (push_clones p t impls n v x w ≡ ok (u, (clones impls n x w).1))
        × Holds t u (xs ++ (clones impls n x w).0)
  unfolding push_clones
  push_clones_lem zero {v} x h small w = (v, refl, rw append-nil h)
  push_clones_lem (suc n) {v} x h small w =
      let y = (impls.clone x w).0 in
      let (u, e, hu) = push_refines p t y h (omega arith) in
      let small' : length u.items.items + n * t.size_of ≤ isize_max =
        omega (arith, snoc_byte_length p t y h hu) in
      let (u', e', hu') = push_clones_lem n x hu small' (impls.clone x w).1 in
      (u', rw e e', rw append_assoc at hu')
