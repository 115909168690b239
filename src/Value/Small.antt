-- ===== src/Value/Small.antt =====
-- `Value` of src/value.rs over any owner of bytes, and in particular over a word, `Value<usize, V>`.
-- `usize` is the representation of words.
pub mod Laws
use buffer.Common.{ℕ, List, Bool, Option, none, some, if◌then◌else◌, Outcome, ok}
use buffer.Common.Outcomes
use buffer.Common.Effects.{Eff, lift, pure, ◌>>=◌, ◌>>◌}
use buffer.Bytes.{Repr, RefMut, as_bytes, as_bytes_mut, box_into_box_bytes, try_from_usize}
use buffer.Traits.{VTable}
use buffer.Value.Copy.{is}

-- `GetBytesRef`, `GetBytesMut` and `GetBytes`.
pub record GetBytes (B : Type 0) : Type 0 where
  pub get_bytes_ref : B → Outcome (List ℕ)
  pub get_bytes_mut : B → Outcome (RefMut (List ℕ) (Outcome B))
  pub get_bytes : B → Outcome (List ℕ)

-- The implementations for `Box<[u8]>`, which are those for `[u8]`, and for `usize`.
abbrev pub box_bytes : GetBytes (List ℕ)
box_bytes = record {
  get_bytes_ref = λ bytes. ok bytes;
  get_bytes_mut = λ bytes. ok (record { value = bytes; put = λ b. ok b });
  get_bytes = λ bytes. ok bytes;
}

abbrev pub usize_bytes : {U : Type 0} → Repr U → GetBytes U
usize_bytes usize = record {
  get_bytes_ref = as_bytes usize;
  get_bytes_mut = as_bytes_mut usize;
  get_bytes = box_into_box_bytes usize;
}

pub record Value (B W : Type 0) : Type 0 where
  pub bytes : B
  pub type_id : ℕ
  pub vtable : VTable W

module _ {B W : Type 0} (owner : GetBytes B) where
  unfoldable pub drop : Value B W → Eff W (Unit {0})
  drop v = do bytes ← lift (owner.get_bytes_mut v.bytes); v.vtable.drop_fn bytes.value

  unfoldable pub eq : Value B W → Value B W → Outcome Bool
  eq v other =
      Outcomes.◌>>=◌ (owner.get_bytes_ref v.bytes)
        (λ a. Outcomes.◌>>=◌ (owner.get_bytes_ref other.bytes) (λ b. v.vtable.eq_fn a b))

  unfoldable pub hash : Value B W → List ℕ → Outcome (List ℕ)
  hash v state =
      Outcomes.◌>>=◌ (owner.get_bytes_ref v.bytes) (λ bytes. v.vtable.hash_fn bytes state)

-- `Value::<usize, V>::downcast`: the value is dropped at the end of the call.
unfoldable pub downcast : {A U W : Type 0} → Repr A → Repr U → Value U W → Eff W (Option A)
downcast t usize v =
    if is t v.type_id
    then (do typed ← lift (try_from_usize t usize v.bytes); drop (usize_bytes usize) v; pure typed)
    else (do drop (usize_bytes usize) v; pure none)
