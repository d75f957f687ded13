-- ===== src/Result/Steps.antt =====
-- Taking a run that succeeded apart into its steps.
use cloud_init_rs.Prelude.{arith, ◌∙◌, sym}
use cloud_init_rs.Result.{ignore}
use cloud_init_rs.Prelude.{List}
use cloud_init_rs.Result.{when}
use cloud_init_rs.Prelude.{Bool}
use cloud_init_rs.Result.{for_each}
use cloud_init_rs.Prelude.{ap, ◌⊎◌, inl, inr, ◌++◌, true, false, [], ◌∷◌}
use cloud_init_rs.Result.{◌>>◌}
use cloud_init_rs.Prelude.{◌≡◌, refl}
use cloud_init_rs.Result.{Result, pure, ok, err, Error, IoError, Exec, ◌>>=◌, map_err}
use cloud_init_rs.Result.{and_then, from_io}

module _ {ℓ κ} {S : Type 0} {A : Type ℓ} {B : Type κ} where
  and_then-eq-ok :
      (r : Result A Error × S) (f : A → Exec S B) {b : B} {s'' : S}
      → and_then r f ≡ (ok b, s'')
      → (a : A) × (s' : S) × (r ≡ (ok a, s')) × (f a s' ≡ (ok b, s''))
  and_then-eq-ok (ok a, s') f h = (a, s', refl, h)
  and_then-eq-ok (err x, s') f h = cc

  pub bind-eq-ok :
      (m : Exec S A) (f : A → Exec S B) (s : S) {b : B} {s'' : S}
      → (m >>= f) s ≡ (ok b, s'')
      → (a : A) × (s' : S) × (m s ≡ (ok a, s')) × (f a s' ≡ (ok b, s''))
  bind-eq-ok m f s h = and_then-eq-ok (m s) f h

module _ {ℓ} {S : Type 0} {A : Type ℓ} where
  from_io-eq-ok :
      (r : Result A IoError × S) (conv : IoError → Error) {a : A} {s' : S}
      → ◌≡◌ {A = Result A Error × S} (from_io r.0 conv, r.1) (ok a, s')
      → r ≡ (ok a, s')
  from_io-eq-ok (ok a, s') conv h = cc
  from_io-eq-ok (err x, s') conv h = cc

  pub map_err-eq-ok :
      (m : S → Result A IoError × S) (conv : IoError → Error) (s : S) {a : A} {s' : S}
      → map_err m conv s ≡ (ok a, s')
      → m s ≡ (ok a, s')
  map_err-eq-ok m conv s h = from_io-eq-ok (m s) conv h

  pub pure-eq-ok : {a b : A} {s s' : S} → pure a s ≡ (ok b, s') → (a ≡ b) × (s ≡ s')
  pure-eq-ok h = (cc, ap (λ (r : Result A Error × S). r.1) h)

module _ {ℓ κ μ} {S : Type 0} {A : Type ℓ} {B : Type κ} {C : Type μ} where
  and_then-and_then :
      (r : Result A Error × S) (f : A → Exec S B) (g : B → Exec S C)
      → and_then (and_then r f) g ≡ and_then r (λ a. f a >>= g)
  and_then-and_then (ok a, s) f g = refl
  and_then-and_then (err x, s) f g = refl

  -- `(m >>= f) >>= g` is one chain of steps.
  pub bind_assoc :
      (m : Exec S A) (f : A → Exec S B) (g : B → Exec S C) (s : S)
      → ((m >>= f) >>= g) s ≡ (m >>= λ a. f a >>= g) s
  bind_assoc m f g s = and_then-and_then (m s) f g

module _ {ℓ κ} {S : Type 0} {A : Type ℓ} {B : Type κ} where
  and_then_cong :
      (r : Result A Error × S) (f g : A → Exec S B)
      → ((a : A) (s : S) → f a s ≡ g a s)
      → and_then r f ≡ and_then r g
  and_then_cong (ok a, s) f g h = h a s
  and_then_cong (err x, s) f g h = refl

  -- Steps that agree after the first agree.
  pub bind_cong :
      (m : Exec S A) (f g : A → Exec S B) (s : S)
      → ((a : A) (t : S) → f a t ≡ g a t)
      → (m >>= f) s ≡ (m >>= g) s
  bind_cong m f g s h = and_then_cong (m s) f g h

-- Taking a run that failed apart.
module _ {ℓ κ} {S : Type 0} {A : Type ℓ} {B : Type κ} where
  and_then-eq-err :
      (r : Result A Error × S) (f : A → Exec S B) {x : Error} {s'' : S}
      → and_then r f ≡ (err x, s'')
      → (r ≡ (err x, s'')) ⊎ ((a : A) × (s' : S) × (r ≡ (ok a, s')) × (f a s' ≡ (err x, s'')))
  and_then-eq-err (ok a, s') f h = inr (a, s', refl, h)
  and_then-eq-err (err y, s') f h = inl (
      ground
        (arith, ap (λ (r : Result B Error × S). r.0) h, ap (λ (r : Result B Error × S). r.1) h))

  pub bind-eq-err :
      (m : Exec S A) (f : A → Exec S B) (s : S) {x : Error} {s'' : S}
      → (m >>= f) s ≡ (err x, s'')
      → (m s ≡ (err x, s'')) ⊎ ((a : A) × (s' : S) × (m s ≡ (ok a, s')) × (f a s' ≡ (err x, s'')))
  bind-eq-err m f s h = and_then-eq-err (m s) f h

-- An action that cannot fail.
abbrev pub Settles : {S : Type 0} → Exec S (Unit {0}) → Type 0
Settles {S} m = (s : S) → (m s).0 ≡ ok tt

module _ {ℓ} {S : Type 0} {B : Type ℓ} where
  -- What follows such an action is always run.
  pub bind-eq_settled :
      (m : Exec S (Unit {0})) (k : Exec S B) (s : S) → Settles m → (m >> k) s ≡ k (m s).1
  bind-eq_settled m k s h = rw h refl

module _ {S : Type 0} where
  pub bind-Settles : (m k : Exec S (Unit {0})) → Settles m → Settles k → Settles (m >> k)
  bind-Settles m k h j s = rw (bind-eq_settled m k s h) (j (m s).1)

  pub when-ignore-Settles : (b : Bool) (m : Exec S (Unit {0})) → Settles (when b (ignore m))
  when-ignore-Settles true m s = refl
  when-ignore-Settles false m s = refl

module _ {ℓ} {S : Type 0} {A : Type ℓ} where
  from_io-eq-err :
      (r : Result A IoError × S) (conv : IoError → Error) {x : Error} {s' : S}
      → ◌≡◌ {A = Result A Error × S} (from_io r.0 conv, r.1) (err x, s')
      → (e : IoError) × (r.0 ≡ err e) × (conv e ≡ x)
  from_io-eq-err (ok a, s') conv h = cc
  from_io-eq-err (err e, s') conv h = (e, refl, cc)

  pub map_err-eq-err :
      (m : S → Result A IoError × S) (conv : IoError → Error) (s : S) {x : Error} {s' : S}
      → map_err m conv s ≡ (err x, s')
      → (e : IoError) × ((m s).0 ≡ err e) × (conv e ≡ x)
  map_err-eq-err m conv s h = from_io-eq-err (m s) conv h

-- A loop over two lists is two loops.
pub for_each-append {ℓ} :
    {S : Type 0} {A : Type ℓ} (f : A → Exec S (Unit {0})) (xs ys : List A) (s : S)
    → for_each f (xs ++ ys) s ≡ (for_each f xs >> for_each f ys) s
unfolding for_each
for_each-append f [] ys s = refl
for_each-append f (x ∷ xs) ys s =
    bind_cong (f x) (λ _. for_each f (xs ++ ys)) (λ _. for_each f xs >> for_each f ys) s
      (λ _ s'. for_each-append f xs ys s')
    ∙ sym (bind_assoc (f x) (λ _. for_each f xs) (λ _. for_each f ys) s)
