-- ===== src/Result.antt =====
-- src/error.rs, and the actions of the program: code that changes the machine and may fail.
-- What was done before a failure stays done, so the state comes back beside the error too.
pub mod Steps
pub mod InTurn
use cloud_init_rs.Prelude.{◌≡◌, refl, Bool, true, false, ◌⊎◌, inl, inr, List, [], ◌∷◌}
use cloud_init_rs.Prelude.Texts.{Text}

pub data Result {ℓ κ} (A : Type ℓ) (E : Type κ) : Type (ℓ ⊔ κ) where
  ok : A → Result A E
  err : E → Result A E

-- `CloudInitError`; an error of another crate is given by its message.
pub data Error : Type 0 where
  config datasource network io yaml json http : Text → Error
  no_datasource : Error
  module_error stage_error : Text → Text → Error
  user_group command permission timeout invalid_data : Text → Error

-- `CloudInitError::module` and `CloudInitError::stage`
unfoldable pub module_failed : Text → Text → Error
module_failed name message = module_error name message

unfoldable pub stage_failed : Text → Text → Error
stage_failed stage message = stage_error stage message

-- `std::io::Error`, given by its message.
abbrev pub IoError : Type 0
IoError = Text

abbrev pub Exec {ℓ} : Type 0 → Type ℓ → Type ℓ
Exec S A = S → Result A Error × S

abbrev and_then {ℓ κ} :
    {S : Type 0} {A : Type ℓ} {B : Type κ}
    → Result A Error × S
    → (A → Exec S B)
    → Result B Error × S
and_then (ok a, s) f = f a s
and_then (err e, s) f = (err e, s)

-- `?`
infixl 5 ◌>>=◌ ◌>>◌
abbrev pub ◌>>=◌ {ℓ κ} :
    {S : Type 0} {A : Type ℓ} {B : Type κ} → Exec S A → (A → Exec S B) → Exec S B
◌>>=◌ m f s = and_then (m s) f

abbrev pub ◌>>◌ {ℓ κ} : {S : Type 0} {A : Type ℓ} {B : Type κ} → Exec S A → Exec S B → Exec S B
m >> k = m >>= λ _. k

abbrev from_io {ℓ} : {A : Type ℓ} → Result A IoError → (IoError → Error) → Result A Error
from_io (ok a) conv = ok a
from_io (err e) conv = err (conv e)

module _ {ℓ} {S : Type 0} {A : Type ℓ} where
  abbrev pub pure : A → Exec S A
  pure a s = (ok a, s)

  abbrev pub raise : Error → Exec S A
  raise e s = (err e, s)

  -- A look at the machine that changes nothing and cannot fail.
  abbrev pub query : (S → A) → Exec S A
  query f s = (ok (f s), s)

  -- `.map_err(conv)?` on a call of the operating system
  abbrev pub map_err : (S → Result A IoError × S) → (IoError → Error) → Exec S A
  map_err m conv s = let (r, s') = m s in (from_io r conv, s')

  -- the same, on a call that changes nothing
  abbrev pub read_err : (S → Result A IoError) → (IoError → Error) → Exec S A
  read_err m conv s = (from_io (m s) conv, s)

-- `match m { Ok(a) => …, Err(e) => … }`
abbrev pub attempt {ℓ κ} :
    {S : Type 0} {A : Type ℓ} {E : Type κ} → (S → Result A E × S) → Exec S (Result A E)
attempt m s = let (r, s') = m s in (ok r, s')

-- `if let Err(e) = m { warn!(…) }` and `m.ok()`: a failure is dropped, what was done is not.
abbrev pub ignore {ℓ} : {S : Type 0} {A : Type ℓ} → Exec S A → Exec S (Unit {0})
ignore m s = (ok tt, (m s).1)

-- `if b { m }`
abbrev pub when : {S : Type 0} → Bool → Exec S (Unit {0}) → Exec S (Unit {0})
when true m = m
when false m = pure tt

-- `for x in xs { f(x)?; }`
unfoldable pub for_each {ℓ} :
    {S : Type 0} {A : Type ℓ} → (A → Exec S (Unit {0})) → List A → Exec S (Unit {0})
for_each f [] = pure tt
for_each f (x ∷ xs) = do f x; for_each f xs

pub Result-cases {ℓ κ} :
    {A : Type ℓ} {E : Type κ} (r : Result A E) → ((a : A) × (r ≡ ok a)) ⊎ ((e : E) × (r ≡ err e))
Result-cases (ok a) = inl (a, refl)
Result-cases (err e) = inr (e, refl)
