-- ===== src/DynDerive/Laws/Supertraits.antt =====
-- Which supertraits of a trait dyn-derive/src/lib.rs takes into the table.
use buffer.Common.{
  and_true, Outcome, ok, ◌>>=◌, Option, none, some, List, [], ◌∷◌, Bool, true, false, ◌&&◌,
  if◌then◌else◌, ◌≡◌, ◌≢◌, refl, sym, ap, ap₂, ◌∙◌, ◌⊎◌, inl, inr, arith, Bool-cases, get_elem?,
  subst,
}
use text.Mathlib.Text.{◌==◌ as str_eq}
use text.Mathlib.TextEquality.{eq_iff}
use buffer.DynDerive.Syntax.{
  PathArguments, absent, empty_brackets, given, no_arguments, Segment, SynPath, Bound, trait,
  lifetime, unwrap,
}
use buffer.DynDerive.KnownTraits.{
  Table, known_traits, arguments_eq, segments_eq, bool_eq, path_eq, get_key_value, recognize, keep,
  vtable_of,
}
use buffer.DynDerive.Laws.Paths.{All}
use buffer.DynDerive.Laws.Generated.{HasSegments}

-- `t` is one of the tables.
abbrev pub In : Table → List Table → Type 0
In t [] = ⊥
In t (table ∷ tables) = (t ≡ table) ⊎ In t tables

-- A bound without `for<..>` and `?`, whose path is that of a known trait.
abbrev pub Recognized : Bound → Table → Type 0
Recognized (trait lifetimes modifier path) t =
    (lifetimes ≡ false) × (modifier ≡ false) × (t.0 ≡ path) × In t known_traits
Recognized (lifetime _) t = ⊥

-- The tables of those bounds that are recognized, in order.
pub data Selects : List Bound → List Table → Type 0 where
  done : Selects [] []
  taken :
      {bound : Bound} {bounds : List Bound} {t : Table} {tables : List Table}
      → Recognized bound t
      → Selects bounds tables
      → Selects (bound ∷ bounds) (t ∷ tables)
  skipped :
      {bound : Bound} {bounds : List Bound} {tables : List Table}
      → ((t : Table) → ¬ Recognized bound t)
      → Selects bounds tables
      → Selects (bound ∷ bounds) tables

arguments_eq_sound : (a b : PathArguments) → arguments_eq a b ≡ true → a ≡ b
unfolding arguments_eq
arguments_eq_sound absent absent h = refl
arguments_eq_sound empty_brackets empty_brackets h = refl
arguments_eq_sound (given a) (given b) h = ap given ((eq_iff a b).0 h)
arguments_eq_sound absent empty_brackets h = cc
arguments_eq_sound absent (given _) h = cc
arguments_eq_sound empty_brackets absent h = cc
arguments_eq_sound empty_brackets (given _) h = cc
arguments_eq_sound (given _) absent h = cc
arguments_eq_sound (given _) empty_brackets h = cc

segments_eq_sound : (as' bs : List Segment) → segments_eq as' bs ≡ true → as' ≡ bs
unfolding segments_eq
segments_eq_sound [] [] h = refl
segments_eq_sound (a ∷ as') (b ∷ bs) h =
    let (front, rest) =
      and_true (str_eq a.ident b.ident && arguments_eq a.arguments b.arguments) (segments_eq as' bs)
        h in
    let (same_ident, same_arguments) = and_true (str_eq a.ident b.ident) _ front in
    let i = (eq_iff a.ident b.ident).0 same_ident in
    let s = arguments_eq_sound a.arguments b.arguments same_arguments in
    ap₂ (λ x xs. x ∷ xs) (ground (arith, i, s)) (segments_eq_sound as' bs rest)
segments_eq_sound [] (_ ∷ _) h = cc
segments_eq_sound (_ ∷ _) [] h = cc

bool_eq_sound : (a b : Bool) → bool_eq a b ≡ true → a ≡ b
bool_eq_sound true b h = sym h
bool_eq_sound false true h = cc
bool_eq_sound false false h = refl

path_eq_sound : (a b : SynPath) → path_eq a b ≡ true → a ≡ b
unfolding path_eq
path_eq_sound a b h =
    let (colon, segments) = and_true (bool_eq a.leading_colon b.leading_colon) _ h in
    let c = bool_eq_sound a.leading_colon b.leading_colon colon in
    let s = segments_eq_sound a.segments b.segments segments in ground (arith, c, s)

some_inj {ℓ} : {A : Type ℓ} {a b : A} → some a ≡ some b → a ≡ b
some_inj h = cc

get_key_value-In :
    (tables : List Table) (path : SynPath) (t : Table)
    → get_key_value tables path ≡ some t
    → (t.0 ≡ path) × In t tables
unfolding get_key_value
get_key_value-In [] path t h = cc
get_key_value-In ((key, table) ∷ tables) path t h = elim (Bool-cases (path_eq key path)) [
  | inl e ↦
      let same : (key, table) ≡ t = some_inj (rw e at h) in
      (ap (λ (x : Table). x.0) (sym same) ∙ path_eq_sound key path e, inl (sym same))
  | inr e ↦ let (k, i) = get_key_value-In tables path t (rw e at h) in (k, inr i)
]

-- The key of a table finds it, and its first segment has no arguments.
abbrev FindsItself : Table → Type 0
FindsItself t =
    (s : Segment) × (get_elem? t.0.segments 0 ≡ some s)
    × (s.arguments ≡ absent)
    × (get_key_value known_traits t.0 ≡ some t)

In-FindsItself : (t : Table) → In t known_traits → FindsItself t
unfolding get_key_value path_eq
In-FindsItself t (inl e) = subst FindsItself (sym e) (_, refl, refl, refl)
In-FindsItself t (inr (inl e)) = subst FindsItself (sym e) (_, refl, refl, refl)
In-FindsItself t (inr (inr (inl e))) = subst FindsItself (sym e) (_, refl, refl, refl)
In-FindsItself t (inr (inr (inr (inl e)))) = subst FindsItself (sym e) (_, refl, refl, refl)
In-FindsItself t (inr (inr (inr (inr (inl e))))) = subst FindsItself (sym e) (_, refl, refl, refl)
In-FindsItself t (inr (inr (inr (inr (inr e))))) = absurd e

-- What a search for a bound is to find.
abbrev IsVerdict : Bound → Option Table → Type 0
IsVerdict bound none = (t : Table) → ¬ Recognized bound t
IsVerdict bound (some t) = Recognized bound t

found-IsVerdict :
    (path : SynPath) (o : Option Table)
    → get_key_value known_traits path ≡ o
    → IsVerdict (trait false false path) o
found-IsVerdict path none e = λ t r.
    let found = (In-FindsItself t r.3).3 in
    cc (subst (λ (q : SynPath). get_key_value known_traits q ≡ some t) r.2 found)
found-IsVerdict path (some t) e =
    let (same, i) = get_key_value-In known_traits path t e in (refl, refl, same, i)

has_arguments :
    (t : Table) (path : SynPath) (seg : Segment) (segments : List Segment)
    → path.segments ≡ seg ∷ segments
    → no_arguments seg.arguments ≡ false
    → ¬ Recognized (trait false false path) t
has_arguments t path seg segments e other (_, _, same, i) =
    let (s, first, plain, _) = In-FindsItself t i in
    let head : get_elem? path.segments 0 ≡ some s =
      subst (λ (q : SynPath). get_elem? q.segments 0 ≡ some s) same first in
    let same_segment : seg ≡ s = some_inj (rw e at head) in
    cc (
      subst (λ (x : Segment). no_arguments x.arguments ≡ false) same_segment other,
      ap no_arguments plain,
    )

keep-Selects :
    (bound : Bound) (bounds : List Bound) (o : Option Table) (tables : List Table)
    → IsVerdict bound o
    → Selects bounds tables
    → Selects (bound ∷ bounds) (keep o tables)
keep-Selects bound bounds none tables v s = skipped v s
keep-Selects bound bounds (some t) tables v s = taken v s

Judges : Bound → Outcome (Option Table) → Type 0
Judges bound m = (o : Option Table) × (m ≡ ok o) × IsVerdict bound o

look_up-Judges :
    (path : SynPath) (segments : List Segment)
    → path.segments ≡ segments
    → segments ≢ []
    → Judges (trait false false path) (
        unwrap (get_elem? segments 0) >>= λ seg.
        ok (if no_arguments seg.arguments then get_key_value known_traits path else none))
unfolding Judges
look_up-Judges path [] e h = absurd (h refl)
look_up-Judges path (seg ∷ segments) e h = elim (Bool-cases (no_arguments seg.arguments)) [
  | inl plain ↦ (get_key_value known_traits path, rw plain, found-IsVerdict path _ refl)
  | inr other ↦ (none, rw other, λ t r. has_arguments t path seg segments e other r)
]

recognize-Judges : (bound : Bound) → HasSegments bound → Judges bound (recognize bound)
unfolding Judges recognize
recognize-Judges (trait true modifier path) h = (none, refl, λ t r. cc r.0)
recognize-Judges (trait false true path) h = (none, refl, λ t r. cc r.1)
recognize-Judges (trait false false path) h = look_up-Judges path path.segments refl h
recognize-Judges (lifetime _) h = (none, refl, λ t r. r)

-- For supertraits whose paths are not empty, the table that `construct_dyn_items` makes of them
-- is, in order, that of each bound which has neither `for<..>` nor `?` and whose path is exactly
-- the one of a known trait, and nothing for the other bounds.
pub vtable_of-Selects :
    (bounds : List Bound)
    → All HasSegments bounds
    → (tables : List Table) × (vtable_of bounds ≡ ok tables) × Selects bounds tables
unfolding vtable_of Judges
vtable_of-Selects [] h = ([], refl, done)
vtable_of-Selects (bound ∷ bounds) (h, hs) =
    let (o, e, v) = recognize-Judges bound h in
    let (tables, f, s) = vtable_of-Selects bounds hs in
    (keep o tables, rw (e, f), keep-Selects bound bounds o tables v s)
