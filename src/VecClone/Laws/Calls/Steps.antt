-- ===== src/VecClone/Laws/Calls/Steps.antt =====
-- Whatever is called, a `VecClone` and a `VecDyn` hold the same values and make and drop the same.
use buffer.Common.{
  arith, ◌≡◌, ◌≢◌, refl, ◌∙◌, ℕ, ◌+◌, ◌*◌, ◌≤◌, List, [], ◌∷◌, ◌++◌, map, length, ok, false,
}
use buffer.Std.Platform.{Platform, isize_max}
use buffer.Std.Vec.{vec}
use buffer.Bytes.{Repr}
use buffer.Traits.{Impls}
use buffer.Elements.Laws.{
  replace_by, thread, length-thread, assign_clones_lem, byte_chunks_mut_refines, drop_each_lem,
  drop_values,
}
use buffer.VecCopy.{VecCopy}
use buffer.VecCopy.Build as Inner
use buffer.VecCopy.Access.{iter_mut, as_mut_slice}
use buffer.VecCopy.Holds.{
  Holds, byte_length, check_ref-Holds, check_ref-mismatch, check_mut-mismatch, clear-Holds,
}
use buffer.VecCopy.Laws.Push.{push_refines}
use buffer.VecCopy.Laws.Read.{as_mut_slice_refines}
use buffer.VecCopy.Laws.Build.{from_vec_refines}
use buffer.VecCopy.Laws.Move.{append_refines, rotate_left_refines, rotate_right_refines}
use buffer.VecClone as Cloning
use buffer.VecClone.{VecClone}
use buffer.VecClone.Typed
use buffer.VecClone.Typed.{with_fns}
use buffer.VecClone.Laws.{resize_keeps_fns}
use buffer.VecClone.Laws.Calls.{
  Call, push, append, resize, fill, rotate_left, rotate_right, clear, push_other, resize_other,
  fill_other, of_vec_dyn, call, run, run_and_drop,
}
use buffer.VecDyn.{VecDyn}
use buffer.VecDyn.Laws.{HoldsDyn}
use buffer.VecDyn.Laws.Drops.{drop_all_refines}
use buffer.VecDyn.Laws.Calls as Dyn
use buffer.VecDyn.Laws.Calls.{after, after_all, size_after, turn, Fits}
use buffer.VecDyn.Laws.Calls.Steps as DynSteps
use buffer.VecDyn.Laws.Calls.Steps.{length-after}

module _ {A W : Type 0} (t : Repr A) (impls : Impls A W) {d : VecCopy} {xs : List A} where
  pub drop_all_lem :
      Holds t d xs
      → (w : W) → Cloning.drop_all (with_fns t impls d) w ≡ ok (tt, drop_values impls xs w)
  unfolding Cloning.drop_all
  drop_all_lem h w =
      let (r, e, same) = byte_chunks_mut_refines t h in
      rw (e, Cloning.drop_all, same) (drop_each_lem t impls xs w)

module _ (p : Platform) {B W : Type 0} (s : Repr B) (others : Impls B W) (v : VecClone W)
    (differ : s.type_id ≢ v.elements.element_type_id) where
  -- At another type nothing is done but to drop the value.
  other_type_drops :
      (n : ℕ) (y : B) (w : W)
      → (Typed.push p s others v y w ≡ ok ((v, false), others.drop y w))
        × (Typed.resize p s others v n y w ≡ ok ((v, false), others.drop y w))
        × (Typed.fill p s others v y w ≡ ok ((v, false), others.drop y w))
  unfolding Typed.push Typed.resize Typed.fill iter_mut as_mut_slice
  other_type_drops n y w = (
    rw (check_ref-mismatch s v.elements differ, Typed.push),
    rw (check_ref-mismatch s v.elements differ, Typed.resize),
    rw (check_mut-mismatch s v.elements differ, Typed.fill, iter_mut, as_mut_slice),
  )

module _ (p : Platform) {A B W : Type 0} (t : Repr A) (impls : Impls A W) (s : Repr B)
    (others : Impls B W) where
  fill_lem :
      {d : VecCopy} {xs : List A} (x : A)
      → Holds t d xs
      → (w : W)
      → let new = thread (replace_by impls x) xs w in
        (u : VecCopy) × (call p t impls s others (fill x) (with_fns t impls d) w
          ≡ ok (with_fns t impls u, impls.drop x new.1))
        × Holds t u new.0
  unfolding call Typed.fill iter_mut
  fill_lem {d} {xs} x h w =
      let new = thread (replace_by impls x) xs w in
      let (r, e, same, put) = as_mut_slice_refines p t h in
      (
        r.put new.0,
        rw (e, call, Typed.fill, same, assign_clones_lem impls x xs w),
        put new.0 (length-thread (replace_by impls x) xs w),
      )

  append_lem :
      {d : VecCopy} {xs : List A} (ys : List A)
      → Holds t d xs
      → (length xs + length ys) * t.size_of ≤ isize_max
      → (w : W)
      → (u : VecCopy) × (call p t impls s others (append ys) (with_fns t impls d) w
          ≡ ok (with_fns t impls u, w))
        × Holds t u (xs ++ ys)
  unfolding call Typed.from_vec Cloning.append Inner.from_vec
  append_lem {d} {xs} ys h small w =
      let (b, e, hb, _) =
        from_vec_refines p t h.positive (vec ys (length ys)) (omega arith) (grind arith) in
      let room : length d.items.items + length b.items.items ≤ isize_max =
        grind (arith, byte_length h, byte_length hb) in
      let (u, rest, e', hu, none_left) = append_refines p t h hb room in
      (u, rw (e, call, e', drop_all_lem t impls none_left w), hu)

  dropped :
      {d : VecCopy} {xs : List A}
      → s.type_id ≢ t.type_id
      → Holds t d xs
      → (n : ℕ) (y : B) (w : W)
      → (Typed.push p s others (with_fns t impls d) y w
          ≡ ok ((with_fns t impls d, false), others.drop y w))
        × (Typed.resize p s others (with_fns t impls d) n y w
            ≡ ok ((with_fns t impls d, false), others.drop y w))
        × (Typed.fill p s others (with_fns t impls d) y w
            ≡ ok ((with_fns t impls d, false), others.drop y w))
  dropped {d} differ h =
      other_type_drops p s others (with_fns t impls d) (λ e. differ (e ∙ h.same_type))

  call_refines :
      (c : Call A B) {d : VecCopy} {xs : List A}
      → s.type_id ≢ t.type_id
      → Holds t d xs
      → size_after (of_vec_dyn c) (length xs) * t.size_of ≤ isize_max
      → turn (of_vec_dyn c) ≤ length xs
      → (w : W)
      → let (ys, w') = after impls others (of_vec_dyn c) xs w in
        (u : VecCopy) × (call p t impls s others c (with_fns t impls d) w
          ≡ ok (with_fns t impls u, w'))
        × Holds t u ys
  unfolding call after size_after turn Typed.push Cloning.rotate_left Cloning.rotate_right
      Cloning.clear
  call_refines (push x) differ h small le w =
      let (u, e, hu) = push_refines p t x h (grind (arith, byte_length h)) in
      (u, rw (check_ref-Holds h, call, Typed.push, e), hu)
  call_refines (append ys) differ h small le w = append_lem ys h small w
  call_refines (resize n x) differ h small le w =
      let (u, e, hu) = resize_keeps_fns p t impls n x h small w in (u, rw (e, call), hu)
  call_refines (fill x) differ h small le w = fill_lem x h w
  call_refines (rotate_left mid) differ h small le w =
      let (u, e, hu) = rotate_left_refines p t mid h le in (u, rw (e, call), hu)
  call_refines (rotate_right k) differ h small le w =
      let (u, e, hu) = rotate_right_refines p t k h le in (u, rw (e, call), hu)
  call_refines clear {d} {xs} differ h small le w =
      let (r, e, same) = byte_chunks_mut_refines t h in
      (_, rw (e, call, same, drop_each_lem t impls xs w), clear-Holds h)
  call_refines (push_other y) {d} differ h small le w =
      (d, rw ((dropped differ h 0 y w).0, call), h)
  call_refines (resize_other n y) {d} differ h small le w =
      (d, rw ((dropped differ h n y w).1, call), h)
  call_refines (fill_other y) {d} differ h small le w =
      (d, rw ((dropped differ h 0 y w).2, call), h)

  pub run_refines :
      (cs : List (Call A B)) {d : VecCopy} {xs : List A}
      → s.type_id ≢ t.type_id
      → Holds t d xs
      → Fits (map of_vec_dyn cs) t.size_of (length xs)
      → (w : W)
      → let (ys, w') = after_all impls others (map of_vec_dyn cs) xs w in
        (u : VecCopy) × (run p t impls s others cs (with_fns t impls d) w
          ≡ ok (with_fns t impls u, w'))
        × Holds t u ys
  unfolding run after_all Fits
  run_refines [] {d} differ h fits w = (d, refl, h)
  run_refines (c ∷ cs) {d} {xs} differ h (small, le, fits) w =
      let (u, e, hu) = call_refines c differ h small le w in
      let fits' : Fits (map of_vec_dyn cs) t.size_of
          (length (after impls others (of_vec_dyn c) xs w).0) =
        rw (length-after impls others (of_vec_dyn c) xs w le) fits in
      let (u', e', hu') =
        run_refines cs differ hu fits' (after impls others (of_vec_dyn c) xs w).1 in
      (u', rw (e, run) (rw e'), hu')

  -- Whatever calls of `push`, `append`, `resize`, `fill`, `rotate_left`, `rotate_right` and
  -- `clear`, and of `push`, `resize` and `fill` with values of another type, a `VecClone` of
  -- functions of the type and a `VecDyn` that both hold `xs` go through, in any order, if none
  -- makes more than `isize::MAX` bytes and no rotation is by more than the number of elements:
  -- the calls return, both buffers then hold the same list, and the world is the same, also
  -- after both have been dropped.
  pub run-of_vec_dyn :
      (cs : List (Call A B)) {d : VecCopy} {v : VecDyn W} {xs : List A}
      → s.type_id ≢ t.type_id
      → Holds t d xs
      → HoldsDyn t impls v xs
      → Fits (map of_vec_dyn cs) t.size_of (length xs)
      → (w : W)
      → (u : VecCopy) × (v' : VecDyn W) × (ys : List A) × (w_calls w_end : W) × (run p t impls s
            others cs
            (with_fns t impls d)
            w
          ≡ ok (with_fns t impls u, w_calls))
        × (Dyn.run p t impls s others (map of_vec_dyn cs) v w ≡ ok (v', w_calls))
        × Holds t u ys
        × HoldsDyn t impls v' ys
        × (run_and_drop p t impls s others cs (with_fns t impls d) w ≡ ok (tt, w_end))
        × (Dyn.run_and_drop p t impls s others (map of_vec_dyn cs) v w ≡ ok (tt, w_end))
  unfolding run_and_drop Dyn.run_and_drop
  run-of_vec_dyn cs differ h k fits w =
      let (u, e, hu) = run_refines cs differ h fits w in
      let (v', f, hv) =
        DynSteps.run_refines p t impls s others (map of_vec_dyn cs) differ k fits w in
      let (ys, w_calls) = after_all impls others (map of_vec_dyn cs) _ w in
      (
        u,
        v',
        ys,
        w_calls,
        drop_values impls ys w_calls,
        e,
        f,
        hu,
        hv,
        rw (e, run_and_drop) (drop_all_lem t impls hu w_calls),
        rw (f, Dyn.run_and_drop) (drop_all_refines t impls hv w_calls),
      )
