-- ===== src/Storage/Codec/Typed.antt =====
-- storage/codec.cpp: for columns of the built-in types, what decode_row returns.
use my_simple_db.Prelude.{
  ℕ, suc, ◌+◌, ◌≡◌, refl, Option, none, some, List, [], ◌∷◌, map, Bool, true, false, if◌then◌else◌,
  inl, inr, Bool-cases, get_or, ap₂, ◌/◌, ◌%◌,
}
use my_simple_db.Common.{Result, ok}
use my_simple_db.Storage.Types.{TypeAttr, Value, typed_null}
use my_simple_db.Storage.Codec.Bytes.{test_bit}
use my_simple_db.Storage.Codec.Columns.{IfSome}
use my_simple_db.Storage.Codec.{
  and_then, take_box, take_int, take_double, take_text, take_float, take_bool, take_decimal,
  decode_column, decode_loop, decode_row, unless,
}
use my_simple_db.Storage.Codec.Accepts.{Kind, Column, attr_of, spec_of, column_spec}

-- A call that raises nothing; what it returns, where it returns something, satisfies P.
abbrev pub Returns {ℓ κ} : {A : Type ℓ} → (A → Type κ) → Result (Option A) → Type (ℓ ⊔ κ)
Returns {A} P r = (o : Option A) × (r ≡ ok o) × IfSome P o

unless-Returns {ℓ κ} :
    {A : Type ℓ} (P : A → Type κ) (bad : Bool) (a : A) → P a → Returns P (unless bad a)
unless-Returns P true a p = (none, refl, tt)
unless-Returns P false a p = (some a, refl, p)

and_then-Returns {ℓ κ μ ν} :
    {X : Type ℓ} {Y : Type κ} (Q : X → Type μ) (P : Y → Type ν) (r : Result (Option X))
    (k : X → Result (Option Y))
    → Returns Q r
    → ((x : X) → Q x → Returns P (k x))
    → Returns P (and_then r k)
and_then-Returns Q P r k (none, e, q) f = rw e (none, refl, tt)
and_then-Returns Q P r k (some x, e, q) f = let g = f x q in rw e g

abbrev OfType : TypeAttr → Value × ℕ → Type 0
OfType t r = r.0.type ≡ t

guarded {ℓ κ} :
    {A : Type ℓ} (P : A → Type κ) (bad : Bool) (r : Result (Option A))
    → Returns P r
    → Returns P (if bad then ok none else r)
guarded P true r h = (none, refl, tt)
guarded P false r h = h

take_box-Returns :
    (k : Kind) (n : ℕ) (nn : Bool) (s : ℕ) (bytes : List ℕ) (len at : ℕ)
    → Returns (OfType (attr_of k)) (take_box (attr_of k).rep (spec_of k n nn s) bytes len at)
unfolding take_box take_int take_double take_text take_float take_bool take_decimal
take_box-Returns Kind.int n nn s bytes len at = unless-Returns _ _ _ refl
take_box-Returns Kind.bigint n nn s bytes len at = unless-Returns _ _ _ refl
take_box-Returns Kind.double n nn s bytes len at = unless-Returns _ _ _ refl
take_box-Returns Kind.float n nn s bytes len at = unless-Returns _ _ _ refl
take_box-Returns Kind.var_char n nn s bytes len at = guarded _ _ _ (unless-Returns _ _ _ refl)
take_box-Returns Kind.char n nn s bytes len at = unless-Returns _ _ _ refl
take_box-Returns Kind.bool n nn s bytes len at = guarded _ _ _ (unless-Returns _ _ _ refl)
take_box-Returns Kind.numeric n nn s bytes len at = guarded _ _ _ (unless-Returns _ _ _ refl)

decode_column-Returns :
    (i : ℕ) (c : Column) (bytes : List ℕ) (len at : ℕ)
    → Returns (OfType (attr_of c.kind)) (decode_column i (column_spec c) bytes len at)
unfolding decode_column
decode_column-Returns i c bytes len at =
    elim (Bool-cases (test_bit (get_or bytes (2 + i / 8) 0) (i % 8))) [
      | inl null ↦ rw null (some (typed_null (attr_of c.kind), at), refl, refl)
      | inr full ↦ rw full (take_box-Returns c.kind c.length c.not_null c.scale bytes len at)
    ]

-- The values have the types of the columns, one for each.
abbrev pub OfColumns : List Column → List Value → Type 0
OfColumns cols values =
    map (λ (v : Value). v.type) values ≡ map (λ (c : Column). attr_of c.kind) cols

decode_loop-Returns :
    (cols : List Column) (i : ℕ) (bytes : List ℕ) (len at : ℕ)
    → Returns (OfColumns cols) (decode_loop i (map column_spec cols) bytes len at)
unfolding decode_loop
decode_loop-Returns [] i bytes len at = (some [], refl, refl)
decode_loop-Returns (c ∷ cols) i bytes len at =
    and_then-Returns (OfType (attr_of c.kind)) (OfColumns (c ∷ cols))
      (decode_column i (column_spec c) bytes len at) _ (decode_column-Returns i c bytes len at)
      λ r typed.
        and_then-Returns (OfColumns cols) (OfColumns (c ∷ cols)) _ _
          (decode_loop-Returns cols (suc i) bytes len r.1)
          λ values rest. (_, refl, ap₂ {C = List TypeAttr} (λ t ts. t ∷ ts) typed rest)

-- For columns of the built-in types, decode_row raises no error, whatever the bytes, and the values
-- that it returns are one for each column, of the column's type.
pub decode_row-Returns :
    (cols : List Column) (bytes : List ℕ) (len : ℕ)
    → Returns (OfColumns cols) (decode_row (map column_spec cols) bytes len)
unfolding decode_row
decode_row-Returns cols bytes len =
    guarded _ _ _ (guarded _ _ _ (decode_loop-Returns cols 0 bytes len _))
