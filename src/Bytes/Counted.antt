-- ===== src/Bytes/Counted.antt =====
-- The casts of `Rc` and `Arc` in src/bytes.rs. A pointer stays the same; the length that it gets is
-- the size of the type.
use buffer.Common.{ℕ}
use buffer.Common.Effects.{Eff, lift, pure, ◌>>=◌}
use buffer.Std.Rc.{Heap, deref}
use buffer.Bytes.{Repr, from_raw_parts}

module _ {A W : Type 0} (t : Repr A) where
  unfoldable pub rc_into_rc_bytes : ℕ → Eff (Heap W) ℕ
  unfolding deref
  rc_into_rc_bytes rc = do c ← deref rc; _ ← lift (from_raw_parts c.bytes t.size_of); pure rc

  unfoldable pub arc_into_arc_bytes : ℕ → Eff (Heap W) ℕ
  unfolding deref
  arc_into_arc_bytes arc = do c ← deref arc; _ ← lift (from_raw_parts c.bytes t.size_of); pure arc

abbrev pub rc_from_rc_bytes : {W : Type 0} → ℕ → Eff (Heap W) ℕ
rc_from_rc_bytes rc = pure rc

abbrev pub arc_from_arc_bytes : {W : Type 0} → ℕ → Eff (Heap W) ℕ
arc_from_arc_bytes arc = pure arc
