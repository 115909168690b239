-- ===== src/VecDyn/Laws/Calls/Steps.antt =====
-- Whatever is called, the buffer holds the list of the values that the calls stand for.
use buffer.Common.{
  ==-false, zero, ap, suc, false, arith, ◌≡◌, ◌≢◌, refl, sym, ◌∙◌, ℕ, ◌+◌, ◌-◌, ◌*◌, ◌≤◌, List, [],
  ◌∷◌, ◌++◌, length, take, drop, ok, length-append, length-take, length-drop,
}
use buffer.Std.Platform.{Platform, isize_max}
use buffer.Std.Vec.{vec}
use buffer.Bytes.{Repr}
use buffer.Traits.{build_vtable, Impls}
use buffer.Elements.Laws.{clones, length-thread, replace_by}
use buffer.VecCopy.Build as Inner
use buffer.VecCopy.Access.{iter_mut, as_mut_slice}
use buffer.VecCopy.Holds.{byte_length, check_ref-mismatch, check_mut-mismatch}
use buffer.VecCopy.Laws.Build.{from_vec_refines}
use buffer.VecCopy.Laws.Move.{append_refines, rotate_left_refines, rotate_right_refines}
use buffer.VecDyn as Dyn
use buffer.VecDyn.{VecDyn, with_data}
use buffer.VecDyn.Build
use buffer.VecDyn.Typed
use buffer.VecDyn.Laws.{HoldsDyn}
use buffer.VecDyn.Laws.Drops.{drop_all_refines, clear_refines}
use buffer.VecDyn.Laws.Clones.{fill_keeps}
use buffer.VecDyn.Laws.Updates.{push_keeps, push-drops, resize_keeps}
use buffer.VecDyn.Laws.Values.{push_value_keeps, push_value-drops, push_cloned_keeps}
use buffer.VecDyn.Laws.Calls.{
  borrowed, boxed, Call, push, push_value, push_cloned, append, resize, fill, rotate_left,
  rotate_right, clear, push_other, push_other_value, push_other_cloned, resize_other, fill_other,
  call, run, after, after_all, size_after, turn, Fits,
}

-- As many as before, however far they are turned.
length_turned {ℓ} : {A : Type ℓ} (n : ℕ) (xs : List A) → length (drop n xs ++ take n xs) ≡ length xs
length_turned n xs =
    omega (arith, length-append (drop n xs) (take n xs), length-take n xs, length-drop n xs)

module _ {A W : Type 0} (impls : Impls A W) where
  length-clones : (n : ℕ) (x : A) (w : W) → length (clones impls n x w).0 ≡ n
  length-clones zero x w = refl
  length-clones (suc n) x w = ap suc (length-clones n x _)

module _ {A B W : Type 0} (impls : Impls A W) (others : Impls B W) where
  pub length-after :
      (c : Call A B) (xs : List A) (w : W)
      → turn c ≤ length xs
      → length (after impls others c xs w).0 ≡ size_after c (length xs)
  unfolding after size_after turn
  length-after (resize n x) xs w h = omega (
    arith,
    length-append (take n xs) (clones impls (n - length xs) x _).0,
    length-take n xs,
    length-clones impls (n - length xs) x _,
  )
  length-after (fill x) xs w h = length-thread (replace_by impls x) xs w
  length-after (rotate_left mid) xs w h = length_turned mid xs
  length-after (rotate_right k) xs w h = length_turned (length xs - k) xs
  length-after (append ys) xs w h = length-append xs ys
  length-after (push x) xs w h = length-append xs (x ∷ [])
  length-after (push_value x) xs w h = length-append xs (x ∷ [])
  length-after (push_cloned x) xs w h = length-append xs _
  length-after clear xs w h = refl
  length-after (push_other y) xs w h = refl
  length-after (push_other_value y) xs w h = refl
  length-after (push_other_cloned y) xs w h = refl
  length-after (resize_other n y) xs w h = refl
  length-after (fill_other y) xs w h = refl

module _ (p : Platform) {B W : Type 0} (s : Repr B) (others : Impls B W) (v : VecDyn W)
    (differ : s.type_id ≢ v.elements.element_type_id) where
  -- At another type `push`, `push_value`, `resize` and `fill` of a `VecDyn` return `None`, leave
  -- the buffer as it is, and drop the value that they are given; `push_cloned` does nothing.
  pub other_type_drops :
      (n : ℕ) (y : B) (w : W)
      → (Typed.push p s others v y w ≡ ok ((v, false), others.drop y w))
        × (Dyn.push_value p v (boxed s others y) w ≡ ok ((v, false), others.drop y w))
        × (Dyn.push_cloned p v (borrowed s others y) w ≡ ok ((v, false), w))
        × (Typed.resize p s others v n y w ≡ ok ((v, false), others.drop y w))
        × (Typed.fill p s others v y w ≡ ok ((v, false), others.drop y w))
  unfolding Dyn.push_cloned Typed.resize Typed.fill iter_mut as_mut_slice
  other_type_drops n y w = (
    push-drops p s others v y w differ,
    push_value-drops p s others v y w (λ e. differ (sym e)),
    rw (==-false v.elements.element_type_id s.type_id (λ e. differ (sym e))),
    rw (check_ref-mismatch s v.elements differ, Typed.resize),
    rw (check_mut-mismatch s v.elements differ, Typed.fill, iter_mut, as_mut_slice),
  )

module _ (p : Platform) {A B W : Type 0} (t : Repr A) (impls : Impls A W) (s : Repr B)
    (others : Impls B W) where
  append_keeps :
      {v : VecDyn W} {xs : List A} (ys : List A)
      → HoldsDyn t impls v xs
      → (length xs + length ys) * t.size_of ≤ isize_max
      → (w : W)
      → (u : VecDyn W) × (call p t impls s others (append ys) v w ≡ ok (u, w))
        × HoldsDyn t impls u (xs ++ ys)
  unfolding call Build.from_vec Dyn.append Inner.from_vec
  append_keeps {v} {xs} ys h small w =
      let (b, e, hb, _) =
        from_vec_refines p t h.holds.positive (vec ys (length ys)) (omega arith) (grind arith) in
      let room : length v.elements.items.items + length b.items.items ≤ isize_max =
        grind (arith, byte_length h.holds, byte_length hb) in
      let (u, rest, e', hu, none_left) = append_refines p t h.holds hb room in
      let gone : HoldsDyn t impls (record { elements = rest; vtable = build_vtable t impls }) [] =
        record { holds = none_left; table = refl } in
      (
        with_data v u,
        rw (e, call, e', drop_all_refines t impls gone w),
        record { holds = hu; table = h.table },
      )

  dropped :
      (v : VecDyn W) {xs : List A}
      → s.type_id ≢ t.type_id
      → HoldsDyn t impls v xs
      → (n : ℕ) (y : B) (w : W)
      → (Typed.push p s others v y w ≡ ok ((v, false), others.drop y w))
        × (Dyn.push_value p v (boxed s others y) w ≡ ok ((v, false), others.drop y w))
        × (Dyn.push_cloned p v (borrowed s others y) w ≡ ok ((v, false), w))
        × (Typed.resize p s others v n y w ≡ ok ((v, false), others.drop y w))
        × (Typed.fill p s others v y w ≡ ok ((v, false), others.drop y w))
  dropped v differ h = other_type_drops p s others v (λ e. differ (e ∙ h.holds.same_type))

  -- A call, at a buffer that holds `xs` of a type other than that of `B`.
  pub call_refines :
      (c : Call A B) {v : VecDyn W} {xs : List A}
      → s.type_id ≢ t.type_id
      → HoldsDyn t impls v xs
      → size_after c (length xs) * t.size_of ≤ isize_max
      → turn c ≤ length xs
      → (w : W)
      → let (ys, w') = after impls others c xs w in
        (u : VecDyn W) × (call p t impls s others c v w ≡ ok (u, w')) × HoldsDyn t impls u ys
  unfolding call after size_after turn Dyn.rotate_left Dyn.rotate_right
  call_refines (push x) differ h small le w =
      let (u, e, hu) = push_keeps p t impls x h (grind (arith, byte_length h.holds)) w in
      (u, rw (e, call), hu)
  call_refines (push_value x) differ h small le w =
      let (u, e, hu) = push_value_keeps p t impls x h (grind (arith, byte_length h.holds)) w in
      (u, rw (e, call), hu)
  call_refines (push_cloned x) differ h small le w =
      let (u, e, hu) = push_cloned_keeps p t impls x h (grind (arith, byte_length h.holds)) w in
      (u, rw (e, call), hu)
  call_refines (append ys) differ h small le w = append_keeps ys h small w
  call_refines (resize n x) differ h small le w =
      let (u, e, hu) = resize_keeps p t impls n x h small w in (u, rw (e, call), hu)
  call_refines (fill x) differ h small le w =
      let (u, e, hu) = fill_keeps p t impls x h w in (u, rw (e, call), hu)
  call_refines (rotate_left mid) {v} differ h small le w =
      let (d, e, hd) = rotate_left_refines p t mid h.holds le in
      (with_data v d, rw (e, call), record { holds = hd; table = h.table })
  call_refines (rotate_right k) {v} differ h small le w =
      let (d, e, hd) = rotate_right_refines p t k h.holds le in
      (with_data v d, rw (e, call), record { holds = hd; table = h.table })
  call_refines clear differ h small le w =
      let (u, e, hu, _) = clear_refines t impls h w in (u, rw (e, call), hu)
  call_refines (push_other y) {v} differ h small le w =
      (v, rw ((dropped v differ h 0 y w).0, call), h)
  call_refines (push_other_value y) {v} differ h small le w =
      (v, rw ((dropped v differ h 0 y w).1, call), h)
  call_refines (push_other_cloned y) {v} differ h small le w =
      (v, rw ((dropped v differ h 0 y w).2, call), h)
  call_refines (resize_other n y) {v} differ h small le w =
      (v, rw ((dropped v differ h n y w).3, call), h)
  call_refines (fill_other y) {v} differ h small le w =
      (v, rw ((dropped v differ h 0 y w).4, call), h)

  -- Whatever calls of `push`, `push_value`, `push_cloned`, `append`, `resize`, `fill`,
  -- `rotate_left`, `rotate_right` and `clear` a `VecDyn` that holds `xs` goes through, and of
  -- `push`, `push_value`, `push_cloned`, `resize` and `fill` with values of another type, in any
  -- order, if none makes more than `isize::MAX` bytes and no rotation is by more than the number
  -- of elements: the calls return, the buffer holds the list that they stand for, and the clones
  -- and drops are those of that list, in order.
  pub run_refines :
      (cs : List (Call A B)) {v : VecDyn W} {xs : List A}
      → s.type_id ≢ t.type_id
      → HoldsDyn t impls v xs
      → Fits cs t.size_of (length xs)
      → (w : W)
      → let (ys, w') = after_all impls others cs xs w in
        (u : VecDyn W) × (run p t impls s others cs v w ≡ ok (u, w')) × HoldsDyn t impls u ys
  unfolding run after_all Fits
  run_refines [] {v} differ h fits w = (v, refl, h)
  run_refines (c ∷ cs) {v} {xs} differ h (small, le, fits) w =
      let (u, e, hu) = call_refines c differ h small le w in
      let fits' : Fits cs t.size_of (length (after impls others c xs w).0) =
        rw (length-after impls others c xs w le) fits in
      let (u', e', hu') = run_refines cs differ hu fits' (after impls others c xs w).1 in
      (u', rw (e, run) (rw e'), hu')
