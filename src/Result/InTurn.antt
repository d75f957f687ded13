-- ===== src/Result/InTurn.antt =====
-- How two actions, one after the other, end.
use cloud_init_rs.Prelude.{◌≡◌, refl, ap, sym, ◌∙◌, ◌↔◌, ◌⊎◌, inl, inr}
use cloud_init_rs.Result.{Result, ok, err, Error, Exec, ◌>>◌, and_then}

-- Two steps end as the first does if that fails, and else as the second does.
abbrev pub InTurn :
    {S : Type 0}
    → Exec S (Unit {0})
    → (S → Result (Unit {0}) Error → S → Type 0)
    → S
    → Result (Unit {0}) Error
    → S
    → Type 0
InTurn {S} m Rest w r w' =
    ((x : Error) × (m w ≡ (err x, w')) × (r ≡ err x)) ⊎ ((v : S) × (m w ≡ (ok tt, v)) × Rest v r w')

module _ {S : Type 0} where
  and_then-InTurn_iff :
      (p : Result (Unit {0}) Error × S) (k : Exec S (Unit {0}))
      (Rest : S → Result (Unit {0}) Error → S → Type 0) (r : Result (Unit {0}) Error) (w' : S)
      → ((v : S) → (k v ≡ (r, w')) ↔ Rest v r w')
      → (and_then p (λ _. k) ≡ (r, w')) ↔ InTurn (λ (w : S). p) Rest p.1 r w'
  and_then-InTurn_iff (ok u, v) k Rest r w' rest = (
    λ h. inr (v, refl, (rest v).0 h),
    λ c. elim c [
      | inl (x, e, f) ↦ absurd (cc (ap (λ (q : Result (Unit {0}) Error × S). q.0) e))
      | inr (t, e, h) ↦ ap k (ap (λ (q : Result (Unit {0}) Error × S). q.1) e) ∙ (rest t).1 h
    ],
  )
  and_then-InTurn_iff (err x, v) k Rest r w' rest = (
    λ h. inl (
      x,
      ap (λ t. (err x, t)) (ap (λ (q : Result (Unit {0}) Error × S). q.1) h),
      sym (ap (λ (q : Result (Unit {0}) Error × S). q.0) h),
    ),
    λ c. elim c [
      | inl (y, e, f) ↦ e ∙ ap (λ q. (q, w')) (sym f)
      | inr (t, e, h) ↦ absurd (cc (ap (λ (q : Result (Unit {0}) Error × S). q.0) e))
    ],
  )

  pub then-InTurn_iff :
      (m k : Exec S (Unit {0})) (Rest : S → Result (Unit {0}) Error → S → Type 0) (w : S)
      (r : Result (Unit {0}) Error) (w' : S)
      → ((v : S) → (k v ≡ (r, w')) ↔ Rest v r w')
      → ((m >> k) w ≡ (r, w')) ↔ InTurn m Rest w r w'
  then-InTurn_iff m k Rest w r w' rest = and_then-InTurn_iff (m w) k Rest r w' rest
