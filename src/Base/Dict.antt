-- ===== src/Base/Dict.antt =====
-- A table with a numeric primary key: an association list in insertion order, and sums over its rows.
use fo_c.Base.{
  ℕ, suc, ◌≡◌, refl, Option, none, some, true, false, List, [], ◌∷◌, arith, ◌==◌, if◌then◌else◌,
  length,
}
use fo_c.Base.Int.{ℤ, pos, ◌+ℤ◌, int_laws}

abbrev pub Dict {ℓ} : Type ℓ → Type ℓ
Dict V = List (ℕ × V)

module _ {ℓ} {V : Type ℓ} where
  abbrev pub lookup : ℕ → Dict V → Option V
  lookup k [] = none
  lookup k ((j, v) ∷ d) = if j == k then some v else lookup k d

  abbrev pub insert : ℕ → V → Dict V → Dict V
  insert k v [] = (k, v) ∷ []
  insert k v ((j, w) ∷ d) = if j == k then (j, v) ∷ d else (j, w) ∷ insert k v d

  pub lookup-insert :
      (k j : ℕ) (v : V) (d : Dict V)
      → lookup j (insert k v d) ≡ (if k == j then some v else lookup j d)
  lookup-insert k j v [] = refl
  lookup-insert k j v ((i, w) ∷ d) = ground (arith, lookup-insert k j v d)

  pub lookup-insert_self : (k : ℕ) (v : V) (d : Dict V) → lookup k (insert k v d) ≡ some v
  lookup-insert_self k v d = ground (arith, lookup-insert k k v d)

  pub lookup-insert_at :
      (k j : ℕ) (v : V) (d : Dict V) → k == j ≡ true → lookup j (insert k v d) ≡ some v
  lookup-insert_at k j v d same = rw (lookup-insert k j v d, same) refl

  pub lookup-insert_off :
      (k j : ℕ) (v : V) (d : Dict V) → k == j ≡ false → lookup j (insert k v d) ≡ lookup j d
  lookup-insert_off k j v d other = rw (lookup-insert k j v d, other) refl

  pub length-insert_new :
      (k : ℕ) (v : V) (d : Dict V) → lookup k d ≡ none → length (insert k v d) ≡ suc (length d)
  length-insert_new k v [] h = refl
  length-insert_new k v ((j, w) ∷ d) h = ground (arith, length-insert_new k v d)

  pub length-insert_old :
      (k : ℕ) (v : V) {w : V} (d : Dict V) → lookup k d ≡ some w → length (insert k v d) ≡ length d
  length-insert_old k v [] h = cc
  length-insert_old k v {w} ((j, u) ∷ d) h = ground (arith, length-insert_old k v {w = w} d)

  abbrev pub sum_by : (V → ℤ) → Dict V → ℤ
  sum_by f [] = pos 0
  sum_by f ((j, v) ∷ d) = f v +ℤ sum_by f d

  pub sum_by-insert_new :
      (f : V → ℤ) (k : ℕ) (v : V) (d : Dict V)
      → lookup k d ≡ none
      → sum_by f (insert k v d) ≡ sum_by f d +ℤ f v
  sum_by-insert_new f k v [] h = omega int_laws
  sum_by-insert_new f k v ((j, w) ∷ d) h = grind (int_laws, sum_by-insert_new f k v d)

  pub sum_by-insert_old :
      (f : V → ℤ) (k : ℕ) (v w : V) (d : Dict V)
      → lookup k d ≡ some w
      → sum_by f (insert k v d) +ℤ f w ≡ sum_by f d +ℤ f v
  sum_by-insert_old f k v w [] h = cc
  sum_by-insert_old f k v w ((j, u) ∷ d) h = grind (int_laws, sum_by-insert_old f k v w d)

  -- A map with one key written.
  abbrev pub put : ℕ → V → (ℕ → Option V) → ℕ → Option V
  put k v f j = if j == k then some v else f j

  pub put-at : (k j : ℕ) (v : V) (f : ℕ → Option V) → j == k ≡ true → put k v f j ≡ some v
  put-at k j v f same = rw same refl

  pub put-off : (k j : ℕ) (v : V) (f : ℕ → Option V) → j == k ≡ false → put k v f j ≡ f j
  put-off k j v f other = rw other refl
