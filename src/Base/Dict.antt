-- ===== src/Base/Dict.antt =====
-- Maps as association lists. A `HashMap` is changed by `insert` and `remove`, which keep one entry
-- for each key; a `BTreeMap` that comes from outside is the list of its entries in key order.
use mathlib.Core.Path.{◌≡◌, refl, ap, ◌∙◌}
use mathlib.Core.Bool.{Bool, false}
use mathlib.Core.Option.{Option, none, some}
use mathlib.Core.List.{List, [], ◌∷◌}
use native.Mathlib.Omega.{arith}
use mathlib.Core.Logic.{◌⊎◌, inl, inr}
use k8s_sidecar_rs.Base.Tests.{if◌then◌else◌, is_some, Bool-cases}
use k8s_sidecar_rs.Base.Equality.{Eq, ◌==◌, beq_refl}

abbrev pub Dict {ℓ} : Type ℓ → Type ℓ → Type ℓ
Dict K V = List (K × V)

module _ {ℓ} {K V : Type ℓ} ⦃e : Eq K⦄ where
  unfoldable pub get : Dict K V → K → Option V
  get [] k = none
  get ((j, v) ∷ m) k = if j == k then some v else get m k

  unfoldable pub remove : Dict K V → K → Dict K V
  remove [] k = []
  remove ((j, v) ∷ m) k = let rest = remove m k in if j == k then rest else (j, v) ∷ rest

  unfoldable pub insert : Dict K V → K → V → Dict K V
  unfolding remove
  insert m k v = (k, v) ∷ remove m k

  unfoldable pub contains_key : Dict K V → K → Bool
  unfolding get
  contains_key m k = is_some (get m k)

  pub get-remove :
      (m : Dict K V) (k j : K) → get (remove m k) j ≡ (if k == j then none else get m j)
  unfolding get remove
  get-remove [] k j = ground arith
  get-remove ((i, v) ∷ m) k j =
      ground (arith, get-remove m k j, e.beq_iff i k, e.beq_iff i j, e.beq_iff k j)

  pub get-insert :
      (m : Dict K V) (k j : K) (v : V) → get (insert m k v) j ≡ (if k == j then some v else get m j)
  unfolding get insert
  get-insert m k j v = ground (arith, get-remove m k j)

  pub get-nil : (k : K) → get [] k ≡ none
  unfolding get
  get-nil k = refl

differ_sym : {K : Type 0} ⦃e : Eq K⦄ (a b : K) → (a == b) ≡ false → (b == a) ≡ false
differ_sym ⦃e⦄ a b h = ground (arith, e.beq_iff a b, e.beq_iff b a)

-- The entry stands in the list.
abbrev pub In : {A : Type 0} → A → List A → Type 0
In a [] = ⊥
In a (b ∷ l) = (a ≡ b) ⊎ In a l

module _ {K V : Type 0} ⦃e : Eq K⦄ where
  pub In-get : (m : Dict K V) (k : K) {v : V} → get m k ≡ some v → In (k, v) m
  unfolding get
  In-get [] k h = cc
  In-get ((j, u) ∷ m) k {v} h = elim (Bool-cases (j == k)) [
    | inl same ↦ inl (ground (arith, e.beq_iff j k))
    | inr differ ↦ inr (In-get m k (ground arith))
  ]

  pub In-remove :
      (m : Dict K V) (k : K) (x : K × V) → In x (remove m k) → In x m × ((x.0 == k) ≡ false)
  unfolding remove
  In-remove [] k x h = absurd h
  In-remove ((j, u) ∷ m) k x h = elim (Bool-cases (j == k)) [
    | inl same ↦ let r = In-remove m k x (rw same at h) in (inr r.0, r.1)
    | inr differ ↦ head_or_rest m k j u x differ (rw differ at h) (In-remove m k x)
  ]
    where
      head_or_rest :
          (m : Dict K V) (k j : K) (u : V) (x : K × V)
          → (j == k) ≡ false
          → In x ((j, u) ∷ remove m k)
          → (In x (remove m k) → In x m × ((x.0 == k) ≡ false))
          → In x ((j, u) ∷ m) × ((x.0 == k) ≡ false)
      head_or_rest m k j u x differ (inl first) rest =
          (inl first, ap (λ (y : K × V). y.0 == k) first ∙ differ)
      head_or_rest m k j u x differ (inr later) rest = let r = rest later in (inr r.0, r.1)

  pub In-insert :
      (m : Dict K V) (k : K) (v : V) (x : K × V)
      → In x (insert m k v)
      → (x ≡ (k, v)) ⊎ (In x m × ((x.0 == k) ≡ false))
  unfolding insert
  In-insert m k v x (inl same) = inl same
  In-insert m k v x (inr old) = inr (In-remove m k x old)

  -- Each entry is what a lookup of its key finds, so no key has two.
  abbrev pub IsUnique : Dict K V → Type 0
  IsUnique m = (x : K × V) → In x m → get m x.0 ≡ some x.1

  pub remove-IsUnique : (m : Dict K V) (k : K) → IsUnique m → IsUnique (remove m k)
  remove-IsUnique m k u x h =
      let r = In-remove m k x h in rw get-remove (rw (differ_sym x.0 k r.1) (u x r.0))

  pub insert-IsUnique : (m : Dict K V) (k : K) (v : V) → IsUnique m → IsUnique (insert m k v)
  insert-IsUnique m k v u x h = elim (In-insert m k v x h) [
    | inl same ↦ rw same (rw get-insert (rw (beq_refl k) refl))
    | inr (old, differ) ↦ rw get-insert (rw (differ_sym x.0 k differ) (u x old))
  ]
