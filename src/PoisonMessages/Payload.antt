-- ===== src/PoisonMessages/Payload.antt =====
-- `canonicalize`: the text of a payload, with the keys of its objects in order. The order in which an
-- object holds its keys does not change the text.
use ahjoor_backend.Common.{
  ℕ, ◌≡◌, ◌≢◌, refl, ap, ◌∙◌, arith, ltb, if◌then◌else◌, Bool, true, false, List, [], ◌∷◌, ◌++◌,
  Bool-cases, inl, inr,
}

abbrev pub Text : Type 0
Text = List ℕ

-- `scalar` is a value that is no object, with its text, which is 'null' for null and undefined.
mutual
  pub data Value : Type 0 where
    scalar : Text → Value
    array : Items → Value
    object : Fields → Value

  pub data Items : Type 0 where
    no_items : Items
    item : Value → Items → Items

  pub data Fields : Type 0 where
    no_fields : Fields
    field : Text → Value → Fields → Fields

-- The order of `sort()`: by code units.
unfoldable pub text_leb : Text → Text → Bool
text_leb [] ys = true
text_leb (x ∷ xs) [] = false
text_leb (x ∷ xs) (y ∷ ys) =
    let rest = text_leb xs ys in if ltb x y then true else if ltb y x then false else rest

unfoldable pub insert_by_key : Text × Text → List (Text × Text) → List (Text × Text)
unfolding text_leb
insert_by_key e [] = e ∷ []
insert_by_key e (x ∷ xs) =
    let rest = insert_by_key e xs in if text_leb e.0 x.0 then e ∷ x ∷ xs else x ∷ rest

-- `join(',')`; the 44 is the comma.
abbrev pub join : List Text → Text
join [] = []
join (t ∷ []) = t
join (t ∷ u ∷ ts) = t ++ 44 ∷ join (u ∷ ts)

abbrev pub pair_texts : List (Text × Text) → List Text
pair_texts [] = []
pair_texts (e ∷ es) = (e.0 ++ 58 ∷ e.1) ∷ pair_texts es

-- The 91, 93, 123 and 125 are brackets and braces.
unfoldable mutual
  unfolding insert_by_key

  pub canonicalize : Value → Text
  canonicalize (scalar t) = t
  canonicalize (array xs) = 91 ∷ join (canonicalize_items xs) ++ 93 ∷ []
  canonicalize (object fs) = 123 ∷ join (pair_texts (canonicalize_fields fs)) ++ 125 ∷ []

  pub canonicalize_items : Items → List Text
  canonicalize_items no_items = []
  canonicalize_items (item v xs) = canonicalize v ∷ canonicalize_items xs

  -- The entries by their keys in order.
  pub canonicalize_fields : Fields → List (Text × Text)
  canonicalize_fields no_fields = []
  canonicalize_fields (field k v fs) = insert_by_key (k, canonicalize v) (canonicalize_fields fs)

-- The same value, with the keys of its objects in another order, at any depth. The keys of an object
-- are different.
mutual
  pub data SameValue : Value → Value → Type 0 where
    same_scalar : (t : Text) → SameValue (scalar t) (scalar t)
    same_array : (xs ys : Items) → SameItems xs ys → SameValue (array xs) (array ys)
    same_object : (fs gs : Fields) → SameFields fs gs → SameValue (object fs) (object gs)

  pub data SameItems : Items → Items → Type 0 where
    none_same : SameItems no_items no_items
    item_same :
        (v w : Value) (xs ys : Items)
        → SameValue v w
        → SameItems xs ys
        → SameItems (item v xs) (item w ys)

  pub data SameFields : Fields → Fields → Type 0 where
    no_same : SameFields no_fields no_fields
    field_same :
        (k : Text) (v w : Value) (fs gs : Fields)
        → SameValue v w
        → SameFields fs gs
        → SameFields (field k v fs) (field k w gs)
    swapped :
        (k j : Text) (v w : Value) (fs : Fields)
        → k ≢ j
        → SameFields (field k v (field j w fs)) (field j w (field k v fs))
    one_then_other : (fs gs hs : Fields) → SameFields fs gs → SameFields gs hs → SameFields fs hs

text_leb_total : (xs ys : Text) → text_leb xs ys ≡ false → text_leb ys xs ≡ true
unfolding text_leb
text_leb_total [] ys e = ground (arith, e)
text_leb_total (x ∷ xs) [] e = refl
text_leb_total (x ∷ xs) (y ∷ ys) e = ground (arith, e, text_leb_total xs ys)

text_leb_antisym : (xs ys : Text) → text_leb xs ys ≡ true → text_leb ys xs ≡ true → xs ≡ ys
unfolding text_leb
text_leb_antisym [] [] e d = refl
text_leb_antisym [] (y ∷ ys) e d = ground (arith, e, d)
text_leb_antisym (x ∷ xs) [] e d = ground (arith, e, d)
text_leb_antisym (x ∷ xs) (y ∷ ys) e d = ground (arith, e, d, text_leb_antisym xs ys)

text_leb_trans :
    (xs ys zs : Text) → text_leb xs ys ≡ true → text_leb ys zs ≡ true → text_leb xs zs ≡ true
unfolding text_leb
text_leb_trans [] ys zs e d = refl
text_leb_trans (x ∷ xs) [] zs e d = ground (arith, e, d)
text_leb_trans (x ∷ xs) (y ∷ ys) [] e d = ground (arith, e, d)
text_leb_trans (x ∷ xs) (y ∷ ys) (z ∷ zs) e d = ground (arith, e, d, text_leb_trans xs ys zs)

insert-insert :
    (d e : Text × Text) (xs : List (Text × Text))
    → d.0 ≢ e.0
    → insert_by_key d (insert_by_key e xs) ≡ insert_by_key e (insert_by_key d xs)
unfolding insert_by_key
insert-insert d e [] other = elim (Bool-cases (text_leb d.0 e.0)) [
  | inl before ↦ elim (Bool-cases (text_leb e.0 d.0)) [
    | inl after ↦ absurd (other (text_leb_antisym d.0 e.0 before after))
    | inr after ↦ ground (arith, before, after)
  ]
  | inr after ↦ ground (arith, after, text_leb_total d.0 e.0 after)
]
insert-insert d e (x ∷ xs) other = elim (Bool-cases (text_leb d.0 e.0)) [
  | inl before ↦ elim (Bool-cases (text_leb e.0 d.0)) [
    | inl after ↦ absurd (other (text_leb_antisym d.0 e.0 before after))
    | inr after ↦
        ground (arith, before, after, insert-insert d e xs other, text_leb_trans d.0 e.0 x.0 before)
  ]
  | inr after ↦
      let first = text_leb_total d.0 e.0 after in
      ground (arith, after, first, insert-insert d e xs other, text_leb_trans e.0 d.0 x.0 first)
]

mutual
  unfolding canonicalize canonicalize_items canonicalize_fields

  pub canonicalize-same : {v w : Value} → SameValue v w → canonicalize v ≡ canonicalize w
  canonicalize-same (same_scalar t) = refl
  canonicalize-same (same_array xs ys h) =
      ap (λ ts. 91 ∷ join ts ++ 93 ∷ []) (canonicalize_items-same h)
  canonicalize-same (same_object fs gs h) =
      ap (λ es. 123 ∷ join (pair_texts es) ++ 125 ∷ []) (canonicalize_fields-same h)

  canonicalize_items-same :
      {xs ys : Items} → SameItems xs ys → canonicalize_items xs ≡ canonicalize_items ys
  canonicalize_items-same none_same = refl
  canonicalize_items-same (item_same v w xs ys h k) =
      rw (canonicalize-same h, canonicalize_items-same k) refl

  canonicalize_fields-same :
      {fs gs : Fields} → SameFields fs gs → canonicalize_fields fs ≡ canonicalize_fields gs
  canonicalize_fields-same no_same = refl
  canonicalize_fields-same (field_same k v w fs gs h t) =
      rw (canonicalize-same h, canonicalize_fields-same t) refl
  canonicalize_fields-same (swapped k j v w fs other) =
      insert-insert (k, canonicalize v) (j, canonicalize w) (canonicalize_fields fs) other
  canonicalize_fields-same (one_then_other fs gs hs a b) =
      canonicalize_fields-same a ∙ canonicalize_fields-same b
