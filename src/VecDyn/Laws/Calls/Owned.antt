-- ===== src/VecDyn/Laws/Calls/Owned.antt =====
-- Each value is dropped as often as it is made: the balance of the calls of a `VecDyn`.
use buffer.Common.{
  arith, ◌≡◌, ◌≢◌, ℕ, zero, suc, ◌+◌, ◌-◌, List, [], ◌∷◌, ◌++◌, length, take, drop, ok,
}
use buffer.Std.Platform.{Platform}
use buffer.Bytes.{Repr}
use buffer.Traits.{Impls}
use buffer.Elements.Laws.{clones, drop_values, replace_by, thread}
use buffer.VecDyn.{VecDyn}
use buffer.VecDyn.Laws.{HoldsDyn}
use buffer.VecDyn.Laws.Drops.{drop_all_refines}
use buffer.VecDyn.Laws.Calls.{
  Call, push, push_value, push_cloned, append, resize, fill, rotate_left, rotate_right, clear,
  push_other, push_other_value, push_other_cloned, resize_other, fill_other, run_and_drop, after,
  after_all, Fits,
}
use buffer.VecDyn.Laws.Calls.Steps.{run_refines}

-- A world that tells what has been made by clones and what has been dropped, counted by `weight`.
-- With the weight that is 1 for one value and 0 for the others, it counts that value.
pub record Counts {A W : Type 0} (impls : Impls A W) (weight : A → ℕ) (made dropped : W → ℕ)
    : Type 0 where
  pub dropped-drop : (x : A) (w : W) → dropped (impls.drop x w) ≡ dropped w + weight x
  pub made-drop : (x : A) (w : W) → made (impls.drop x w) ≡ made w
  pub dropped-clone : (x : A) (w : W) → dropped (impls.clone x w).1 ≡ dropped w
  pub made-clone : (x : A) (w : W) → made (impls.clone x w).1 ≡ made w + weight (impls.clone x w).0

abbrev pub total : {A : Type 0} → (A → ℕ) → List A → ℕ
total weight [] = 0
total weight (x ∷ xs) = weight x + total weight xs

module _ {A : Type 0} (weight : A → ℕ) where
  total-append : (xs ys : List A) → total weight (xs ++ ys) ≡ total weight xs + total weight ys
  total-append [] ys = omega arith
  total-append (x ∷ xs) ys = omega (arith, total-append xs ys)

  total_split :
      (n : ℕ) (xs : List A) → total weight (take n xs) + total weight (drop n xs) ≡ total weight xs
  total_split zero xs = omega arith
  total_split (suc n) [] = omega arith
  total_split (suc n) (x ∷ xs) = omega (arith, total_split n xs)

module _ {A W : Type 0} (impls : Impls A W) (weight : A → ℕ) {made dropped : W → ℕ}
    (count : Counts impls weight made dropped) where
  pub drop_values_counts :
      (xs : List A) (w : W)
      → (dropped (drop_values impls xs w) ≡ dropped w + total weight xs)
        × (made (drop_values impls xs w) ≡ made w)
  drop_values_counts [] w = omega arith
  drop_values_counts (x ∷ xs) w =
      omega
        (arith, drop_values_counts xs (impls.drop x w), count.dropped-drop x w, count.made-drop x w)

  clones_count :
      (n : ℕ) (x : A) (w : W)
      → let (ys, w') = clones impls n x w in
        (dropped w' ≡ dropped w) × (made w' ≡ made w + total weight ys)
  clones_count zero x w = omega arith
  clones_count (suc n) x w =
      omega
        (arith, clones_count n x (impls.clone x w).1, count.dropped-clone x w, count.made-clone x w)

  replaced_count :
      (x : A) (xs : List A) (w : W)
      → let (ys, w') = thread (replace_by impls x) xs w in
        (dropped w' ≡ dropped w + total weight xs) × (made w' ≡ made w + total weight ys)
  replaced_count x [] w = omega arith
  replaced_count x (old ∷ xs) w =
      let w' = (impls.clone x w).1 in
      omega (
        arith,
        replaced_count x xs (impls.drop old w'),
        count.dropped-drop old w',
        count.made-drop old w',
        count.dropped-clone x w,
        count.made-clone x w,
      )

module _ {A B W : Type 0} (impls : Impls A W) (others : Impls B W) (weight : A → ℕ)
    (weight_other : B → ℕ) where
  -- What the caller gives away with a call.
  abbrev pub given : Call A B → ℕ
  given (push x) = weight x
  given (push_value x) = weight x
  given (append ys) = total weight ys
  given (resize n x) = weight x
  given (fill x) = weight x
  given (push_other y) = weight_other y
  given (push_other_value y) = weight_other y
  given (resize_other n y) = weight_other y
  given (fill_other y) = weight_other y
  given _ = 0

  module _ {made dropped : W → ℕ} (count : Counts impls weight made dropped)
      (count_other : Counts others weight_other made dropped) where
    after_balance :
        (c : Call A B) (xs : List A) (w : W)
        → let (ys, w') = after impls others c xs w in
          dropped w' + total weight ys + made w ≡ dropped w + total weight xs + given c + made w'
    unfolding after
    after_balance (push x) xs w = omega (arith, total-append weight xs (x ∷ []))
    after_balance (push_value x) xs w = omega (arith, total-append weight xs (x ∷ []))
    after_balance (push_cloned x) xs w = omega (
      arith,
      total-append weight xs ((impls.clone x w).0 ∷ []),
      count.dropped-clone x w,
      count.made-clone x w,
    )
    after_balance (append ys) xs w = omega (arith, total-append weight xs ys)
    after_balance (resize n x) xs w =
        let w' = drop_values impls (drop n xs) w in
        let new = clones impls (n - length xs) x w' in
        omega (
          arith,
          total-append weight (take n xs) new.0,
          total_split weight n xs,
          drop_values_counts impls weight count (drop n xs) w,
          clones_count impls weight count (n - length xs) x w',
          count.dropped-drop x new.1,
          count.made-drop x new.1,
        )
    after_balance (fill x) xs w =
        let new = thread (replace_by impls x) xs w in
        omega (
          arith,
          replaced_count impls weight count x xs w,
          count.dropped-drop x new.1,
          count.made-drop x new.1,
        )
    after_balance (rotate_left mid) xs w =
        omega (arith, total-append weight (drop mid xs) (take mid xs), total_split weight mid xs)
    after_balance (rotate_right k) xs w =
        let mid = length xs - k in
        omega (arith, total-append weight (drop mid xs) (take mid xs), total_split weight mid xs)
    after_balance clear xs w = omega (arith, drop_values_counts impls weight count xs w)
    after_balance (push_other y) xs w =
        omega (arith, count_other.dropped-drop y w, count_other.made-drop y w)
    after_balance (push_other_value y) xs w =
        omega (arith, count_other.dropped-drop y w, count_other.made-drop y w)
    after_balance (push_other_cloned y) xs w = omega arith
    after_balance (resize_other n y) xs w =
        omega (arith, count_other.dropped-drop y w, count_other.made-drop y w)
    after_balance (fill_other y) xs w =
        omega (arith, count_other.dropped-drop y w, count_other.made-drop y w)

    after_all_balance :
        (cs : List (Call A B)) (xs : List A) (w : W)
        → let (ys, w') = after_all impls others cs xs w in
          dropped w' + total weight ys + made w
          ≡ dropped w + total weight xs + total given cs + made w'
    unfolding after_all
    after_all_balance [] xs w = omega arith
    after_all_balance (c ∷ cs) xs w =
        let r = after impls others c xs w in
        omega (arith, after_balance c xs w, after_all_balance cs r.0 r.1)

module _ (p : Platform) {A B W : Type 0} (t : Repr A) (impls : Impls A W) (s : Repr B)
    (others : Impls B W) (weight : A → ℕ) (weight_other : B → ℕ) {made dropped : W → ℕ}
    (count : Counts impls weight made dropped)
    (count_other : Counts others weight_other made dropped) where
  -- After any calls of `push`, `push_value`, `push_cloned`, `append`, `resize`, `fill`,
  -- `rotate_left`, `rotate_right` and `clear` of a `VecDyn` that holds `xs`, and of `push`,
  -- `push_value`, `push_cloned`, `resize` and `fill` with values of another type, if none makes
  -- more than `isize::MAX` bytes and no rotation is by more than the number of elements, and
  -- after the drop of the buffer, as much has been dropped as was made by clones, was in `xs` or
  -- was given away with the calls, where values are counted by any weight, also that of a single
  -- value, and the world tells what is made and dropped: nothing is leaked, and nothing is
  -- dropped twice.
  pub run_and_drop_balance :
      (cs : List (Call A B)) {v : VecDyn W} {xs : List A}
      → s.type_id ≢ t.type_id
      → HoldsDyn t impls v xs
      → Fits cs t.size_of (length xs)
      → (w : W)
      → (w' : W) × (run_and_drop p t impls s others cs v w ≡ ok (tt, w'))
        × (dropped w' + made w
            ≡ dropped w
              + made w'
              + total weight xs
              + total (given impls others weight weight_other) cs)
  unfolding run_and_drop
  run_and_drop_balance cs {v} {xs} differ h fits w =
      let (u, e, hu) = run_refines p t impls s others cs differ h fits w in
      let (ys, w_end) = after_all impls others cs xs w in
      (
        drop_values impls ys w_end,
        rw (e, run_and_drop) (drop_all_refines t impls hu w_end),
        omega (
          arith,
          after_all_balance impls others weight weight_other count count_other cs xs w,
          drop_values_counts impls weight count ys w_end,
        ),
      )
