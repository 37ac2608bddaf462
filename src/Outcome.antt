-- ===== src/Outcome.antt =====
-- src/error.rs: the errors of the database, and the outcome of a fallible call. `panic` and
-- `stuck` are no Rust values: an assertion failed, an index was out of range or an `unwrap` met
-- `None`; and a loop of the model has run out of its fuel.
use Prim.Native.String.{String}
use blockchain_parity_db.Prelude.{◌≡◌, refl, Bool, true, false}

-- The kinds of `std::io::Error` that the code tells apart.
pub data IoError : Type 0 where
  unexpected_eof other : IoError

pub data Error : Type 0 where
  io : IoError → Error
  corruption : String → Error
  invalid_configuration : String → Error
  invalid_input : String → Error
  invalid_value_data : Error
  background : Error → Error
  locked : IoError → Error
  migration : String → Error
  compression : Error
  database_not_found : Error

pub data Result {ℓ} (A : Type ℓ) : Type ℓ where
  ok : A → Result A
  err : Error → Result A
  panic : Result A
  stuck : Result A

infixl 5 ◌>>=◌
-- `r?`, and what follows it
abbrev pub ◌>>=◌ {ℓ κ} : {S : Type ℓ} {T : Type κ} → Result S → (S → Result T) → Result T
stuck >>= next = stuck
panic >>= next = panic
err why >>= next = err why
ok result >>= next = next result

-- `assert!(b)`, in front of what follows
abbrev pub assert {ℓ} : {A : Type ℓ} → Bool → Result A → Result A
assert true r = r
assert false r = panic

-- What led to a result that is no error
pub bind_ok {ℓ κ} :
    {S : Type ℓ} {T : Type κ} (r : Result S) (next : S → Result T) {out : T}
    → (r >>= next) ≡ ok out
    → (s : S) × (r ≡ ok s) × (next s ≡ ok out)
bind_ok stuck next e = cc
bind_ok panic next e = cc
bind_ok (err why) next e = cc
bind_ok (ok result) next e = (result, refl, e)

pub bind_bind {ℓ κ μ} :
    {S : Type ℓ} {T : Type κ} {V : Type μ} (r : Result S) (f : S → Result T) (g : T → Result V)
    → (r >>= f >>= g) ≡ (r >>= (λ s. f s >>= g))
bind_bind (ok s) f g = refl
bind_bind (err why) f g = refl
bind_bind panic f g = refl
bind_bind stuck f g = refl
