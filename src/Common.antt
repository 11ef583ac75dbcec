-- ===== src/Common.antt =====
-- common/err.h: the error codes of the program, and the results of code that raises.
-- `DB_RAISE` throws an error with a code; its message is not modelled. `DB_CRITICAL` and
-- `DB_CRASH` end the process.
use my_simple_db.Prelude.{◌≡◌, refl, sym, subst, Bool, true, false, if◌then◌else◌}

pub data ErrCode : Type 0 where
  io_error catalog_missing catalog_exists invalid_type table_not_found table_exists : ErrCode
  schema_not_found schema_exists schema_not_empty index_exists index_not_found : ErrCode
  protected_table invalid_ddl value_mismatch record_too_long arith_error unknown_column : ErrCode
  unknown_var unknown_function invalid_var_value unknown_stmt not_implemented internal : ErrCode
  syntax_error txn_active no_active_txn ddl_in_txn bootstrap_mode too_many_clients : ErrCode
  star_no_from : ErrCode

pub data Result {ℓ} (A : Type ℓ) : Type ℓ where
  ok : A → Result A
  err : ErrCode → Result A
  exit : Result A

-- What follows a raise is not run.
infixl 5 ◌>>=◌ ◌>>◌
abbrev pub ◌>>=◌ {ℓ κ} : {X : Type ℓ} {Y : Type κ} → Result X → (X → Result Y) → Result Y
exit >>= k = exit
err code >>= k = err code
ok x >>= k = k x

abbrev pub ◌>>◌ {ℓ} : {Y : Type ℓ} → Result (Unit {0}) → Result Y → Result Y
◌>>◌ r s = r >>= λ done. s

-- `if (bad) { DB_RAISE(...) }`
abbrev pub raise_if : Bool → ErrCode → Result (Unit {0})
raise_if bad code = if bad then err code else ok tt

-- A bind that returns: its first part returned.
pub >>=-eq-ok {ℓ κ} :
    {X : Type ℓ} {Y : Type κ} (r : Result X) (k : X → Result Y) {y : Y}
    → (r >>= k) ≡ ok y
    → (x : X) × (r ≡ ok x) × (k x ≡ ok y)
>>=-eq-ok exit k returns = cc
>>=-eq-ok (err code) k returns = cc
>>=-eq-ok (ok x) k returns = (x, refl, returns)

-- What a computation establishes of its result, where it returns one.
abbrev pub Ensures {ℓ κ} : {A : Type ℓ} → (A → Type κ) → Result A → Type κ
Ensures P (ok a) = P a
Ensures P (err e) = Unit
Ensures P exit = Unit

pub trivial {ℓ} : {A : Type ℓ} (r : Result A) → Ensures (λ a. Unit {0}) r
trivial (ok a) = tt
trivial (err e) = tt
trivial exit = tt

pub Ensures-bind {ℓ κ μ ν} :
    {A : Type ℓ} {B : Type κ} (Q : A → Type ν) (P : B → Type μ) (r : Result A) (f : A → Result B)
    → Ensures Q r
    → ((a : A) → Q a → Ensures P (f a))
    → Ensures P (r >>= f)
Ensures-bind Q P (ok a) f q k = k a q
Ensures-bind Q P (err e) f q k = tt
Ensures-bind Q P exit f q k = tt

-- The rule where nothing is known of the first result.
pub Ensures-then {ℓ κ μ} :
    {A : Type ℓ} {B : Type κ} (P : B → Type μ) (r : Result A) (f : A → Result B)
    → ((a : A) → Ensures P (f a))
    → Ensures P (r >>= f)
Ensures-then P (ok a) f k = k a
Ensures-then P (err e) f k = tt
Ensures-then P exit f k = tt

pub Ensures-if {ℓ κ} :
    {A : Type ℓ} (P : A → Type κ) (b : Bool) (r s : Result A)
    → (b ≡ true → Ensures P r)
    → (b ≡ false → Ensures P s)
    → Ensures P (if b then r else s)
Ensures-if P true r s f g = f refl
Ensures-if P false r s f g = g refl

pub Ensures-ok {ℓ κ} :
    {A : Type ℓ} (P : A → Type κ) (r : Result A) {a : A} → Ensures P r → r ≡ ok a → P a
Ensures-ok P (ok b) p e = subst P (cc e) p
Ensures-ok P (err c) p e = cc
Ensures-ok P exit p e = cc

-- Where the first computation returns, the second returns too, with a related result.
abbrev pub Follows {ℓ κ μ} :
    {A : Type ℓ} {B : Type κ} → (A → B → Type μ) → Result A → Result B → Type (κ ⊔ μ)
Follows {B} R (ok a) s = (b : B) × (s ≡ ok b) × R a b
Follows R (err e) s = Unit
Follows R exit s = Unit

pub Follows-bind {ℓ κ μ ν π ρ} :
    {A : Type ℓ} {B : Type κ} {C : Type μ} {D : Type ν} (R : A → B → Type π) (S : C → D → Type ρ)
    (r : Result A) (s : Result B) (f : A → Result C) (g : B → Result D)
    → Follows R r s
    → ((a : A) (b : B) → R a b → Follows S (f a) (g b))
    → Follows S (r >>= f) (s >>= g)
Follows-bind R S (ok a) s f g h k = rw h.1 (k a h.0 h.2)
Follows-bind R S (err e) s f g h k = tt
Follows-bind R S exit s f g h k = tt

pub Follows-ok {ℓ κ μ} :
    {A : Type ℓ} {B : Type κ} (R : A → B → Type μ) (r : Result A) (s : Result B) {a : A}
    → Follows R r s
    → r ≡ ok a
    → (b : B) × (s ≡ ok b) × R a b
Follows-ok R (ok a) s h e = (h.0, h.1, subst (λ t. R t h.0) (cc e) h.2)
Follows-ok R (err c) s h e = absurd (cc e)
Follows-ok R exit s h e = absurd (cc e)

-- The inverse reading, for building one by cases on the first result.
pub Follows-intro {ℓ κ μ} :
    {A : Type ℓ} {B : Type κ} (R : A → B → Type μ) (r : Result A) (s : Result B)
    → ((a : A) → r ≡ ok a → (b : B) × (s ≡ ok b) × R a b)
    → Follows R r s
Follows-intro R (ok a) s h = h a refl
Follows-intro R (err c) s h = tt
Follows-intro R exit s h = tt

pub Follows-eq {ℓ κ} :
    {A : Type ℓ} (R : A → A → Type κ) (r s : Result A) → ((a : A) → R a a) → r ≡ s → Follows R r s
Follows-eq R (ok a) s h e = (a, sym e, h a)
Follows-eq R (err c) s h e = tt
Follows-eq R exit s h e = tt

-- The rule for bind where something more is known of each of the first results.
pub Follows-bind_both {ℓ κ μ ν π ρ σ τ} :
    {A : Type ℓ} {B : Type κ} {C : Type μ} {D : Type ν} (R : A → B → Type π) (Q : A → Type σ)
    (P : B → Type τ) (S : C → D → Type ρ) (r : Result A) (s : Result B) (f : A → Result C)
    (g : B → Result D)
    → Follows R r s
    → Ensures Q r
    → Ensures P s
    → ((a : A) (b : B) → R a b → Q a → P b → Follows S (f a) (g b))
    → Follows S (r >>= f) (s >>= g)
Follows-bind_both R Q P S (ok a) s f g h q p k =
    rw h.1 (k a h.0 h.2 q (subst (λ t. Ensures P t) h.1 p))
Follows-bind_both R Q P S (err e) s f g h q p k = tt
Follows-bind_both R Q P S exit s f g h q p k = tt

pub Follows-weaken {ℓ κ μ ν} :
    {A : Type ℓ} {B : Type κ} (R : A → B → Type μ) (S : A → B → Type ν) (r : Result A)
    (s : Result B)
    → ((a : A) (b : B) → R a b → S a b)
    → Follows R r s
    → Follows S r s
Follows-weaken R S (ok a) s k h = (h.0, h.1, k a h.0 h.2)
Follows-weaken R S (err e) s k h = tt
Follows-weaken R S exit s k h = tt
