-- ===== src/CloneValue/ArcValue/Laws.antt =====
-- What dropping an `ArcValue` of src/clone_value.rs does to its contents.
use buffer.Common.{ℕ, ◌≡◌, ◌≢◌, some, ok, panic, false, ◌==◌, arith}
use buffer.Common.Effects.{◌>>=◌}
use buffer.Bytes.{Repr, from_raw_parts, box_into_box_bytes, from_bytes_mut}
use buffer.Std.Rc
use buffer.Std.Rc.{Counted, Heap, deref}
use buffer.Bytes.Counted.{arc_into_arc_bytes}
use buffer.Traits.{Impls, drop_bytes}
use buffer.Traits.Laws.{box_into_box_bytes_lem}
use buffer.CloneValue.ArcValue.{drop, drop_contents, new}

module _ {A B W : Type 0} (t : Repr A) (arc : Repr B) (arc_impls : Impls B W) where
  -- An `ArcValue` made of the only `Arc` of `x`, and then dropped, panics, if the size of the
  -- type of `x` is not that of an `Arc`.
  pub drop-new :
      (p : ℕ) (x : A) (h : Heap W)
      → h.counts p ≡ some (record { strong = 1; bytes = t.to_bytes x })
      → t.size_of ≢ arc.size_of
      → (new t arc arc_impls p >>= drop) h ≡ panic
  unfolding new arc_into_arc_bytes deref drop drop_contents Rc.get_mut drop_bytes from_bytes_mut
      box_into_box_bytes
  drop-new p x h c ne =
      let whole : from_raw_parts (t.to_bytes x) t.size_of ≡ ok (t.to_bytes x) =
        box_into_box_bytes_lem t x in
      let other_size : (t.size_of == arc.size_of) ≡ false = ground (arith) in
      rw (c, whole, c, t.length-to_bytes x, other_size)
