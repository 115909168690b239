-- ===== src/CloneValue/RcValue/Laws.antt =====
-- When the contents of an `RcValue` of src/clone_value.rs are dropped.
use buffer.Common.{
  if◌then◌else◌, Bool-cases, inl, inr, Outcome, subst, false, ℕ, zero, suc, ◌-◌, ◌==◌, ◌≡◌, refl,
  Option, none, some, ok, ==-true, arith,
}
use native.Mathlib.Numerals.{add-one}
use buffer.Common.Effects.{Eff, pure, ◌>>◌}
use buffer.Bytes.{Repr}
use buffer.Std.Rc
use buffer.Value.Copy.{is}
use buffer.Std.Rc.{Counted, Heap, update, deref, in_world}
use buffer.Traits.{Impls, drop_bytes}
use buffer.Traits.Laws.{drop_bytes_lem}
use buffer.CloneValue.RcValue.{RcValue, clone, drop, drop_contents, new, downcast}
use buffer.Bytes.Counted.{rc_into_rc_bytes}
use buffer.Bytes.{from_raw_parts, box_into_box_bytes}
use buffer.Traits.Laws.{box_into_box_bytes_lem}

update_self : (counts : ℕ → Option Counted) (p : ℕ) (c : Option Counted) → update counts p c p ≡ c
update_self counts p c = rw (==-true p p refl)

more_than_one : (n : ℕ) → (suc (suc n) == 1) ≡ false
more_than_one n = ground arith

one_less : (n : ℕ) → suc (suc n) - 1 ≡ suc n
one_less n = omega arith

same_heap :
    {R W : Type 0} {m : Outcome (R × Heap W)} {r : R} {h h' : Heap W}
    → m ≡ ok (r, h)
    → m ≡ ok (r, h')
    → h ≡ h'
same_heap e f = cc

-- Where `handles` values or pointers to `x` are left, `world` is the world before `x` was dropped.
module _ {A W : Type 0} (t : Repr A) (impls : Impls A W) (p : ℕ) (x : A) (world : W) where
  -- Each is counted, and `x` is there; or there is none, and `x` has been dropped, once, and freed.
  abbrev pub IsShared : ℕ → Heap W → Type 0
  IsShared zero h = (h.counts p ≡ none) × (h.world ≡ impls.drop x world)
  IsShared (suc handles) h =
      (h.counts p ≡ some (record { strong = suc handles; bytes = t.to_bytes x }))
      × (h.world ≡ world)

  -- The value that `new` makes of a pointer `p`.
  abbrev pub value : RcValue W
  value = record { bytes = p; type_id = t.type_id; drop_fn = drop_bytes t impls }

  pub clone-IsShared :
      (handles : ℕ) (h : Heap W)
      → IsShared (suc handles) h
      → (h' : Heap W) × (clone value h ≡ ok (value, h')) × IsShared (suc (suc handles)) h'
  unfolding clone Rc.clone deref
  clone-IsShared handles h (c, w) = (
    record h {
      counts =
          update h.counts p (some (record { strong = suc (suc handles); bytes = t.to_bytes x }));
    },
    rw (c, add-one (suc handles)),
    (update_self h.counts p _, w),
  )

  pub drop-IsShared :
      (handles : ℕ) (h : Heap W)
      → IsShared (suc handles) h
      → (h' : Heap W) × (drop value h ≡ ok (tt, h')) × IsShared handles h'
  unfolding drop drop_contents Rc.get_mut Rc.drop deref
  drop-IsShared zero h (c, w) = (
    record { counts = update h.counts p none; world = impls.drop x world },
    rw (c, drop_bytes_lem t impls x h.world, w, c),
    (update_self h.counts p none, refl),
  )
  drop-IsShared (suc handles) h (c, w) = (
    record h {
      counts = update h.counts p (some (record { strong = suc handles; bytes = t.to_bytes x }));
    },
    rw (c, more_than_one handles, c, more_than_one handles, one_less handles),
    (update_self h.counts p _, w),
  )

  -- The states after `new` of the only pointer to `x` in the state `h`, with the number of values
  -- that are left: any of them is cloned or dropped, in any order.
  pub data Reaches (h : Heap W) : ℕ → Heap W → Type 0 where
    made : {h' : Heap W} → new t impls p h ≡ ok (value, h') → Reaches h 1 h'
    cloned :
        {handles : ℕ} {before after : Heap W}
        → Reaches h (suc handles) before
        → clone value before ≡ ok (value, after)
        → Reaches h (suc (suc handles)) after
    dropped :
        {handles : ℕ} {before after : Heap W}
        → Reaches h (suc handles) before
        → drop value before ≡ ok (tt, after)
        → Reaches h handles after

  -- `drop` of so many values, one after the other.
  abbrev pub drop_times : ℕ → Eff (Heap W) (Unit {0})
  drop_times zero = pure tt
  drop_times (suc handles) = do drop value; drop_times handles

  pub new-IsShared :
      (h : Heap W)
      → h.counts p ≡ some (record { strong = 1; bytes = t.to_bytes x })
      → new t impls p h ≡ ok (value, h)
  unfolding new rc_into_rc_bytes deref box_into_box_bytes
  new-IsShared h c =
      let whole : from_raw_parts (t.to_bytes x) t.size_of ≡ ok (t.to_bytes x) =
        box_into_box_bytes_lem t x in
      rw (c, whole)

  module _ (h : Heap W) (only : h.counts p ≡ some (record { strong = 1; bytes = t.to_bytes x }))
      (same_world : h.world ≡ world) where
    Reaches-IsShared : {handles : ℕ} {h' : Heap W} → Reaches h handles h' → IsShared handles h'
    Reaches-IsShared (made e) =
        subst (λ (g : Heap W). IsShared 1 g) (same_heap (new-IsShared h only) e) (only, same_world)
    Reaches-IsShared (cloned {handles} {before} r e) =
        let (after, f, s) = clone-IsShared handles before (Reaches-IsShared r) in
        subst (λ (g : Heap W). IsShared (suc (suc handles)) g) (same_heap f e) s
    Reaches-IsShared (dropped {handles} {before} r e) =
        let (after, f, s) = drop-IsShared handles before (Reaches-IsShared r) in
        subst (λ (g : Heap W). IsShared handles g) (same_heap f e) s

  drop_times-IsShared :
      (handles : ℕ) (h : Heap W)
      → IsShared handles h
      → (h' : Heap W) × (drop_times handles h ≡ ok (tt, h')) × IsShared 0 h'
  drop_times-IsShared zero h s = (h, refl, s)
  drop_times-IsShared (suc handles) h s =
      let (h', e, s') = drop-IsShared handles h s in
      let (h'', f, s'') = drop_times-IsShared handles h' s' in (h'', rw e f, s'')

module _ {A W : Type 0} (t : Repr A) (impls : Impls A W) (p : ℕ) (x : A) where
  -- Whatever `RcValue`s, made of the only `Rc` of `x`, are cloned and dropped, in any order,
  -- dropping those that are left, one after the other, returns; then `x` has been dropped, once
  -- in all and by nothing before, and its memory is freed.
  pub drop_times-Reaches :
      (h : Heap W) {handles : ℕ} {h' : Heap W}
      → h.counts p ≡ some (record { strong = 1; bytes = t.to_bytes x })
      → Reaches t impls p x h.world h handles h'
      → (end : Heap W) × (drop_times t impls p x h.world handles h' ≡ ok (tt, end))
        × (end.counts p ≡ none)
        × (end.world ≡ impls.drop x h.world)
  drop_times-Reaches h {handles} {h'} only r =
      let (end, e, s) =
        drop_times-IsShared t impls p x h.world handles h'
          (Reaches-IsShared t impls p x h.world h only refl r) in
      (end, e, s.0, s.1)

  -- `downcast` of an `RcValue` of `x`, one of `n + 1` that are counted, returns the pointer if
  -- the type has the same `TypeId` and `None` if not, and in both cases one pointer fewer is
  -- counted afterwards: if it was the only one, `x` has been dropped and its memory freed, also
  -- where the pointer is returned.
  pub downcast-IsShared :
      {B : Type 0} (u : Repr B) (handles : ℕ) (h : Heap W)
      → h.counts p ≡ some (record { strong = suc handles; bytes = t.to_bytes x })
      → (h' : Heap W) × (downcast u (value t impls p x h.world) h
          ≡ ok (if t.type_id == u.type_id then some p else none, h'))
        × IsShared t impls p x h.world handles h'
  unfolding downcast is
  downcast-IsShared u handles h c =
      let (h', e, s) = drop-IsShared t impls p x h.world handles h (c, refl) in
      elim (Bool-cases (t.type_id == u.type_id)) [
        | inl same ↦ (h', rw (same, e), s)
        | inr other ↦ (h', rw (other, e), s)
      ]
