-- ===== src/Prelude/Updates.antt =====
-- Functions on numbers with one value changed.
use Prim.Native.Nat.{ℕ}
use mathlib.Core.Path.{◌≡◌, sym, subst}
use mathlib.Core.Logic.{◌≢◌, inl, inr}
use verona.Prelude.Tests.{◌==◌, if◌then◌else◌, Bool-cases, eq_of_==, ne_of_==, ==_self, ==_ne}

module _ {ℓ} {A : Type ℓ} where
  abbrev pub update : (ℕ → A) → ℕ → A → ℕ → A
  update f k v j = if j == k then v else f j

  pub update_same : (f : ℕ → A) (k : ℕ) (v : A) → update f k v k ≡ v
  update_same f k v = rw (==_self k)

  pub update_other : (f : ℕ → A) (k : ℕ) (v : A) (j : ℕ) → j ≢ k → update f k v j ≡ f j
  update_other f k v j ne = rw (==_ne j k ne)

  -- What holds of the new value at its place and of the old ones elsewhere holds of the function.
  pub update-each {κ} :
      (P : ℕ → A → Type κ) (f : ℕ → A) (k : ℕ) (v : A)
      → P k v
      → ((j : ℕ) → j ≢ k → P j (f j))
      → (j : ℕ) → P j (update f k v j)
  update-each P f k v here there j = elim (Bool-cases (j == k)) [
    | inl e ↦ rw e (subst (λ n. P n v) (sym (eq_of_== j k e)) here)
    | inr ne ↦ rw ne (there j (ne_of_== j k ne))
  ]

  -- What the new value keeps of the old one the function keeps.
  pub update-forward {κ} :
      (P : ℕ → A → Type κ) (f : ℕ → A) (k : ℕ) (v : A) (j : ℕ)
      → (P k (f k) → P k v)
      → P j (f j)
      → P j (update f k v j)
  update-forward P f k v j keep h = elim (Bool-cases (j == k)) [
    | inl e ↦ rw e (
        subst (λ n. P n v) (sym (eq_of_== j k e))
          (keep (subst (λ n. P n (f n)) (eq_of_== j k e) h)))
    | inr ne ↦ rw ne h
  ]

  pub update-back {κ} :
      (P : ℕ → A → Type κ) (f : ℕ → A) (k : ℕ) (v : A) (j : ℕ)
      → (P k v → P k (f k))
      → P j (update f k v j)
      → P j (f j)
  update-back P f k v j keep h = elim (Bool-cases (j == k)) [
    | inl e ↦
        subst (λ n. P n (f n)) (sym (eq_of_== j k e))
          (keep (subst (λ n. P n v) (eq_of_== j k e) (rw e at h)))
    | inr ne ↦ rw ne at h
  ]
