-- ===== src/Base/Dict/Distinct.antt =====
-- Maps whose list holds each key once, as every Go map does, and sums over their values.
use logtailr.Base.{
  ℕ, ◌+◌, String, ◌≡◌, refl, none, some, [], ◌∷◌, arith, str_eq, eq_iff, Bool-cases, inl, inr,
}
use logtailr.Base.Dict.{Dict, get, put, remove, get-put, get-remove}

module _ {ℓ} {V : Type ℓ} where
  abbrev pub IsDistinct : Dict V → Type ℓ
  IsDistinct [] = Unit
  IsDistinct ((k, v) ∷ m) = (get m k ≡ none) × IsDistinct m

  pub put-IsDistinct : (m : Dict V) (k : String) (v : V) → IsDistinct m → IsDistinct (put m k v)
  unfolding put
  put-IsDistinct [] k v h = (unfold get in refl, tt)
  put-IsDistinct ((j, w) ∷ m) k v (a, h) = elim (Bool-cases (str_eq j k)) [
    | inl same ↦ rw same (rw (← (eq_iff j k).0 same) a, h)
    | inr other ↦
        rw other
          (rw (get-put m k j v) (ground (arith, eq_iff j k, eq_iff k j)), put-IsDistinct m k v h)
  ]

  pub remove-IsDistinct : (m : Dict V) (k : String) → IsDistinct m → IsDistinct (remove m k)
  unfolding remove
  remove-IsDistinct [] k h = tt
  remove-IsDistinct ((j, w) ∷ m) k (a, h) = elim (Bool-cases (str_eq j k)) [
    | inl same ↦ rw same (remove-IsDistinct m k h)
    | inr other ↦
        rw other
          (rw (get-remove m k j) (ground (arith, eq_iff j k, eq_iff k j)), remove-IsDistinct m k h)
  ]

  -- the sum of `f` over the values
  abbrev pub sum_by : (V → ℕ) → Dict V → ℕ
  sum_by f [] = 0
  sum_by f ((k, v) ∷ m) = f v + sum_by f m

  pub remove_of_absent : (m : Dict V) (k : String) → get m k ≡ none → remove m k ≡ m
  unfolding get remove
  remove_of_absent [] k h = refl
  remove_of_absent ((j, w) ∷ m) k h = ground (arith, remove_of_absent m k)

  pub sum_by-remove :
      (f : V → ℕ) (m : Dict V) (k : String) (v : V)
      → IsDistinct m
      → get m k ≡ some v
      → sum_by f (remove m k) + f v ≡ sum_by f m
  unfolding get remove
  sum_by-remove f [] k v h e = ground arith
  sum_by-remove f ((j, w) ∷ m) k v (a, h) e = elim (Bool-cases (str_eq j k)) [
    | inl same ↦ ground (arith, eq_iff j k, remove_of_absent m j)
    | inr other ↦ ground (arith, sum_by-remove f m k v h)
  ]

  pub sum_by-put_absent :
      (f : V → ℕ) (m : Dict V) (k : String) (v : V)
      → get m k ≡ none
      → sum_by f (put m k v) ≡ sum_by f m + f v
  unfolding get put
  sum_by-put_absent f [] k v h = omega arith
  sum_by-put_absent f ((j, w) ∷ m) k v h = ground (arith, sum_by-put_absent f m k v)

  pub sum_by-put :
      (f : V → ℕ) (m : Dict V) (k : String) (v w : V)
      → get m k ≡ some w
      → sum_by f (put m k v) + f w ≡ sum_by f m + f v
  unfolding get put
  sum_by-put f [] k v w h = ground arith
  sum_by-put f ((j, u) ∷ m) k v w h = ground (arith, sum_by-put f m k v w)
