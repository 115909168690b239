-- ===== src/VecCopy/Laws/Serde.antt =====
-- A `VecCopy` that is written and read, and the memory behind a mutable reinterpretation.
use buffer.Common.{◌≡◌, refl, ◌∙◌, sym, ℕ, List, length, true, ok}
use buffer.Std.Platform.{Platform}
use buffer.Std.Vec.{Vec}
use buffer.Std.Vec.Laws.{Capacity}
use buffer.Bytes.{Repr, RefMut}
use buffer.VecCopy.{VecCopy}
use buffer.VecCopy.Equality.{eq}
use buffer.VecCopy.Convert.{ReinterpretMut, reinterpret_as_mut_slice, reinterpret_iter_mut}
use buffer.VecCopy.Holds.{Holds}
use buffer.VecCopy.Laws.Read.{rewrite-Holds}
use buffer.VecCopy.Laws.Equality.{eq_of_fields}
use buffer.VecCopy.Serde.{Transmute, serialize, deserialize, type_id_from, transmute_type_id_to_u64}

-- What is read from what was written holds the same values, where `collect` gives a vector of
-- just the bytes within an allocation that is in order.
module _ (transmute : Transmute) (collect : List ℕ → Vec ℕ)
    (collect-items : (bs : List ℕ) → (collect bs).items ≡ bs)
    (collect-room : (bs : List ℕ) → Capacity (length bs) (collect bs).capacity) where
  deserialize-serialize :
      {A : Type 0} {t : Repr A} {v : VecCopy} {xs : List A}
      → Holds t v xs
      → Holds t (deserialize transmute collect (serialize transmute v)) xs
        × (eq v (deserialize transmute collect (serialize transmute v)) ≡ true)
  unfolding serialize deserialize type_id_from transmute_type_id_to_u64
  deserialize-serialize {v = v} h =
      let bytes = collect-items v.items.items in
      let id = transmute.to_type_id-to_u64 v.element_type_id in
      (
        record {
          positive = h.positive;
          same_type = id ∙ h.same_type;
          same_size = h.same_size;
          memory = bytes ∙ h.memory;
          room = rw bytes (collect-room v.items.items);
        },
        eq_of_fields v _ (sym bytes) refl (sym id),
      )

-- The values are borrowed, and a write of as many values leaves a buffer of these.
module _ (p : Platform) {A : Type 0} (t : Repr A) (r : ReinterpretMut t) where
  reinterpret_iter_mut_refines :
      {v : VecCopy} {xs : List A}
      → Holds t v xs
      → (s : RefMut (List A) VecCopy) × (reinterpret_iter_mut r v ≡ ok s)
        × (s.value ≡ xs)
        × ((ys : List A) → length ys ≡ length xs → Holds t (s.put ys) ys)
  unfolding reinterpret_iter_mut reinterpret_as_mut_slice
  reinterpret_iter_mut_refines {v} {xs} h =
      let (slice, e, same, put) = r.reinterpret_mut_slice-encode xs in
      (
        _,
        rw (h.memory, reinterpret_iter_mut, reinterpret_as_mut_slice, e),
        same,
        λ ys n. rewrite-Holds p t ys h n (put ys n),
      )
