-- ===== src/VecDyn/Laws/Calls.antt =====
-- Calls of a `VecDyn` one after the other, and the list of values that they stand for.
pub mod Steps
pub mod Owned
pub mod Observed
use buffer.Common.{ℕ, ◌+◌, ◌-◌, ◌*◌, ◌≤◌, List, [], ◌∷◌, ◌++◌, length, take, drop}
use buffer.Common.Effects.{Eff, pure, lift, ◌>>=◌, ◌>>◌}
use buffer.Std.Platform.{Platform, isize_max}
use buffer.Std.Vec.{vec}
use buffer.Bytes.{Repr}
use buffer.Traits.{Impls}
use buffer.Value.Laws.{boxed, borrowed}
use buffer.Elements.Laws.{clones, drop_values, replace_by, thread}
use buffer.VecDyn as Dyn
use buffer.VecDyn.{VecDyn}
use buffer.VecDyn.Build
use buffer.VecDyn.Typed

-- A call of a buffer of values of type `A`; those with `other` are made with a value of type `B`.
pub data Call (A B : Type 0) : Type 0 where
  push : A → Call A B
  push_value : A → Call A B
  push_cloned : A → Call A B
  append : List A → Call A B
  resize : ℕ → A → Call A B
  fill : A → Call A B
  rotate_left : ℕ → Call A B
  rotate_right : ℕ → Call A B
  clear : Call A B
  push_other : B → Call A B
  push_other_value : B → Call A B
  push_other_cloned : B → Call A B
  resize_other : ℕ → B → Call A B
  fill_other : B → Call A B

module _ (p : Platform) {A B W : Type 0} (t : Repr A) (impls : Impls A W) (s : Repr B)
    (others : Impls B W) where
  -- The code. The buffer to append is made of a vector, and dropped after it.
  unfoldable pub call : Call A B → VecDyn W → Eff W (VecDyn W)
  call (push x) v = do r ← Typed.push p t impls v x; pure r.0
  call (push_value x) v = do r ← Dyn.push_value p v (boxed t impls x); pure r.0
  call (push_cloned x) v = do r ← Dyn.push_cloned p v (borrowed t impls x); pure r.0
  call (append ys) v = do
    buf ← lift (Build.from_vec t impls p (vec ys (length ys)))
    r ← lift (Dyn.append p v buf)
    Dyn.drop_all r.1
    pure r.0
  call (resize n x) v = do r ← Typed.resize p t impls v n x; pure r.0
  call (fill x) v = do r ← Typed.fill p t impls v x; pure r.0
  call (rotate_left mid) v = lift (Dyn.rotate_left p v mid)
  call (rotate_right k) v = lift (Dyn.rotate_right p v k)
  call clear v = Dyn.clear v
  call (push_other y) v = do r ← Typed.push p s others v y; pure r.0
  call (push_other_value y) v = do r ← Dyn.push_value p v (boxed s others y); pure r.0
  call (push_other_cloned y) v = do r ← Dyn.push_cloned p v (borrowed s others y); pure r.0
  call (resize_other n y) v = do r ← Typed.resize p s others v n y; pure r.0
  call (fill_other y) v = do r ← Typed.fill p s others v y; pure r.0

  unfoldable pub run : List (Call A B) → VecDyn W → Eff W (VecDyn W)
  run [] v = pure v
  run (c ∷ cs) v = do u ← call c v; run cs u

  -- The calls, and then the end of the scope of the buffer.
  unfoldable pub run_and_drop : List (Call A B) → VecDyn W → Eff W (Unit {0})
  run_and_drop cs v = do u ← run cs v; Dyn.drop_all u

module _ {A B W : Type 0} (impls : Impls A W) (others : Impls B W) where
  -- What a call does to the list of the values and to the world.
  unfoldable pub after : Call A B → List A → W → List A × W
  after (push x) xs w = (xs ++ x ∷ [], w)
  after (push_value x) xs w = (xs ++ x ∷ [], w)
  after (push_cloned x) xs w = let (y, w') = impls.clone x w in (xs ++ y ∷ [], w')
  after (append ys) xs w = (xs ++ ys, w)
  after (resize n x) xs w =
      let new = clones impls (n - length xs) x (drop_values impls (drop n xs) w) in
      (take n xs ++ new.0, impls.drop x new.1)
  after (fill x) xs w = let new = thread (replace_by impls x) xs w in (new.0, impls.drop x new.1)
  after (rotate_left mid) xs w = (drop mid xs ++ take mid xs, w)
  after (rotate_right k) xs w = (drop (length xs - k) xs ++ take (length xs - k) xs, w)
  after clear xs w = ([], drop_values impls xs w)
  after (push_other y) xs w = (xs, others.drop y w)
  after (push_other_value y) xs w = (xs, others.drop y w)
  after (push_other_cloned y) xs w = (xs, w)
  after (resize_other n y) xs w = (xs, others.drop y w)
  after (fill_other y) xs w = (xs, others.drop y w)

  unfoldable pub after_all : List (Call A B) → List A → W → List A × W
  after_all [] xs w = (xs, w)
  after_all (c ∷ cs) xs w = let (ys, w') = after c xs w in after_all cs ys w'

module _ {A B : Type 0} where
  -- How many values a buffer of `n` values has after a call.
  unfoldable pub size_after : Call A B → ℕ → ℕ
  size_after (push x) n = n + 1
  size_after (push_value x) n = n + 1
  size_after (push_cloned x) n = n + 1
  size_after (append ys) n = n + length ys
  size_after (resize m x) n = m
  size_after clear n = 0
  size_after _ n = n

  -- How many values a call moves from one end to the other.
  unfoldable pub turn : Call A B → ℕ
  turn (rotate_left mid) = mid
  turn (rotate_right k) = k
  turn _ = 0

  -- On a buffer of `n` values of `size` bytes, each call has room for its values and turns no more
  -- than there are.
  unfoldable pub Fits : List (Call A B) → ℕ → ℕ → Type 0
  Fits [] size n = Unit
  Fits (c ∷ cs) size n =
      (size_after c n * size ≤ isize_max) × (turn c ≤ n) × Fits cs size (size_after c n)
