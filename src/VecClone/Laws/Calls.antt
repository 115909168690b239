-- ===== src/VecClone/Laws/Calls.antt =====
-- Calls of a `VecClone` one after the other. They stand for the same list of values as those of a
-- `VecDyn`.
pub mod Steps
use buffer.Common.{ℕ, List, [], ◌∷◌, length, map}
use buffer.Common.Effects.{Eff, pure, lift, ◌>>=◌, ◌>>◌}
use buffer.Std.Platform.{Platform}
use buffer.Std.Vec.{vec}
use buffer.Bytes.{Repr}
use buffer.Traits.{Impls}
use buffer.VecClone as Cloning
use buffer.VecClone.{VecClone}
use buffer.VecClone.Typed
use buffer.VecDyn.Laws.Calls as Dyn

-- A call of a buffer of values of type `A`; those with `other` are made with a value of type `B`.
pub data Call (A B : Type 0) : Type 0 where
  push : A → Call A B
  append : List A → Call A B
  resize : ℕ → A → Call A B
  fill : A → Call A B
  rotate_left : ℕ → Call A B
  rotate_right : ℕ → Call A B
  clear : Call A B
  push_other : B → Call A B
  resize_other : ℕ → B → Call A B
  fill_other : B → Call A B

-- The call of a `VecDyn`.
abbrev pub of_vec_dyn : {A B : Type 0} → Call A B → Dyn.Call A B
of_vec_dyn (push x) = Dyn.push x
of_vec_dyn (append ys) = Dyn.append ys
of_vec_dyn (resize n x) = Dyn.resize n x
of_vec_dyn (fill x) = Dyn.fill x
of_vec_dyn (rotate_left mid) = Dyn.rotate_left mid
of_vec_dyn (rotate_right k) = Dyn.rotate_right k
of_vec_dyn clear = Dyn.clear
of_vec_dyn (push_other y) = Dyn.push_other y
of_vec_dyn (resize_other n y) = Dyn.resize_other n y
of_vec_dyn (fill_other y) = Dyn.fill_other y

module _ (p : Platform) {A B W : Type 0} (t : Repr A) (impls : Impls A W) (s : Repr B)
    (others : Impls B W) where
  -- The code. The buffer to append is made of a vector, and dropped after it.
  unfoldable pub call : Call A B → VecClone W → Eff W (VecClone W)
  call (push x) v = do r ← Typed.push p t impls v x; pure r.0
  call (append ys) v = do
    buf ← lift (Typed.from_vec t impls p (vec ys (length ys)))
    r ← lift (Cloning.append p v buf)
    Cloning.drop_all r.1
    pure r.0
  call (resize n x) v = do r ← Typed.resize p t impls v n x; pure r.0
  call (fill x) v = do r ← Typed.fill p t impls v x; pure r.0
  call (rotate_left mid) v = lift (Cloning.rotate_left p v mid)
  call (rotate_right k) v = lift (Cloning.rotate_right p v k)
  call clear v = Cloning.clear v
  call (push_other y) v = do r ← Typed.push p s others v y; pure r.0
  call (resize_other n y) v = do r ← Typed.resize p s others v n y; pure r.0
  call (fill_other y) v = do r ← Typed.fill p s others v y; pure r.0

  unfoldable pub run : List (Call A B) → VecClone W → Eff W (VecClone W)
  run [] v = pure v
  run (c ∷ cs) v = do u ← call c v; run cs u

  -- The calls, and then the end of the scope of the buffer.
  unfoldable pub run_and_drop : List (Call A B) → VecClone W → Eff W (Unit {0})
  run_and_drop cs v = do u ← run cs v; Cloning.drop_all u
