-- ===== src/VecCopy/Serde.antt =====
-- The features serde of src/lib.rs: what a `VecCopy` is written as, and read from.
use buffer.Common.{ℕ, List, ◌≡◌}
use buffer.Std.Vec.{Vec}
use buffer.VecCopy.{VecCopy}

-- `std::mem::transmute` between a `TypeId` and a `u64`, which have the same bits.
pub record Transmute : Type 0 where
  pub to_u64 : ℕ → ℕ
  pub to_type_id : ℕ → ℕ
  pub to_type_id-to_u64 : (id : ℕ) → to_type_id (to_u64 id) ≡ id

-- `TypeIdDef`, which stands for a `TypeId`.
pub record TypeIdDef : Type 0 where
  pub t : ℕ

-- The fields of a `VecCopy`, in order, as the derived `Serialize` writes them.
pub record Fields : Type 0 where
  pub items : List ℕ
  pub element_size : ℕ
  pub element_type_id : TypeIdDef

module _ (transmute : Transmute) where
  unfoldable pub transmute_type_id_to_u64 : ℕ → ℕ
  transmute_type_id_to_u64 id = transmute.to_u64 id

  -- `From<TypeIdDef> for TypeId`
  unfoldable pub type_id_from : TypeIdDef → ℕ
  type_id_from def = transmute.to_type_id def.t

  -- The derived `Serialize`, with the getter of `TypeIdDef`.
  unfoldable pub serialize : VecCopy → Fields
  serialize v = record {
    items = v.items.items;
    element_size = v.element_size;
    element_type_id = record { t = transmute_type_id_to_u64 v.element_type_id };
  }

  -- The derived `Deserialize`. `collect` makes a vector of the bytes that are read.
  unfoldable pub deserialize : (List ℕ → Vec ℕ) → Fields → VecCopy
  deserialize collect fields = record {
    items = collect fields.items;
    element_size = fields.element_size;
    element_type_id = type_id_from fields.element_type_id;
  }
