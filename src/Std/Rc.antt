-- ===== src/Std/Rc.antt =====
-- `Rc<[u8]>` and `Arc<[u8]>` of the standard library: pointers to bytes with a count of the pointers.
-- There are no weak ones. What has been freed has no count, and its use is undefined.
use buffer.Common.{ℕ, ◌+◌, ◌-◌, ◌==◌, List, Option, none, some, if◌then◌else◌, ok, defined}
use buffer.Common.Effects.{Eff}
use buffer.Common.Outcomes

pub record Counted : Type 0 where
  pub strong : ℕ
  pub bytes : List ℕ

-- A world with the counted bytes at each address.
pub record Heap (W : Type 0) : Type 0 where
  pub counts : ℕ → Option Counted
  pub world : W

abbrev pub update : (ℕ → Option Counted) → ℕ → Option Counted → ℕ → Option Counted
update counts p c q = if q == p then c else counts q

module _ {W : Type 0} where
  -- A call that leaves the counts alone.
  abbrev pub in_world : {R : Type 0} → Eff W R → Eff (Heap W) R
  in_world m h = Outcomes.◌>>=◌ (m h.world) (λ r. ok (r.0, record h { world = r.1 }))

  -- What a pointer points to.
  unfoldable pub deref : ℕ → Eff (Heap W) Counted
  deref p h = Outcomes.◌>>=◌ (defined (h.counts p)) (λ c. ok (c, h))

  unfoldable pub clone : ℕ → Eff (Heap W) ℕ
  unfolding deref
  clone p h = Outcomes.◌>>=◌ (deref p h) (λ r. ok (
    p,
    record h { counts = update h.counts p (some (record r.0 { strong = (r.0).strong + 1 })) },
  ))

  -- The bytes, if the pointer is the only one.
  unfoldable pub get_mut : ℕ → Eff (Heap W) (Option (List ℕ))
  unfolding deref
  get_mut p h =
      Outcomes.◌>>=◌ (deref p h) (λ r. ok (if (r.0).strong == 1 then some (r.0).bytes else none, h))

  -- The last pointer frees the bytes, which have no drop of their own.
  unfoldable pub drop : ℕ → Eff (Heap W) (Unit {0})
  unfolding deref
  drop p h = Outcomes.◌>>=◌ (deref p h) (λ r. ok (
    tt,
    record h {
      counts =
          update h.counts p
            (if (r.0).strong == 1 then none else some (record r.0 { strong = (r.0).strong - 1 }));
    },
  ))
