-- ===== src/Prelude/Dict.antt =====
-- Maps (`std::map`, `absl::flat_hash_map`) as association lists, with what the code does on a
-- missing key. The order of the list stands for the order of iteration.
use mathlib.Core.List.{List, [], ◌∷◌}
use mathlib.Core.Logic.{ite}
use mathlib.Core.Option.{Option, none, some}
use mathlib.Core.Path.{◌≡◌, refl}
use native.Mathlib.Omega.{arith}

abbrev pub Dict {ℓ} : Type ℓ → Type ℓ → Type ℓ
Dict K V = List (K × V)

module _ {ℓ} {K V : Type ℓ} (dec : Discrete K) where
  -- `find`
  unfoldable pub lookup : K → Dict K V → Option V
  lookup k [] = none
  lookup k ((j, v) ∷ m) = ite (dec j k) (some v) (lookup k m)

  -- `m[k] = v`
  unfoldable pub insert : K → V → Dict K V → Dict K V
  insert k v [] = (k, v) ∷ []
  insert k v ((j, w) ∷ m) = ite (dec j k) ((j, v) ∷ m) ((j, w) ∷ insert k v m)

  -- `m.erase(k)`
  unfoldable pub erase : K → Dict K V → Dict K V
  erase k [] = []
  erase k ((j, w) ∷ m) = let rest = erase k m in ite (dec j k) rest ((j, w) ∷ rest)

module _ {ℓ} {K V : Type ℓ} (dec : Discrete K) where
  pub lookup-insert :
      (j k : K) (v : V) (m : Dict K V)
      → lookup dec j (insert dec k v m) ≡ ite (dec k j) (some v) (lookup dec j m)
  unfolding lookup insert
  lookup-insert j k v [] = refl
  lookup-insert j k v ((i, w) ∷ m) = ground (arith, lookup-insert j k v m)

  pub lookup-head : (k : K) (v : V) (m : Dict K V) → lookup dec k ((k, v) ∷ m) ≡ some v
  unfolding lookup
  lookup-head k v m = ground arith

  pub lookup-erase :
      (j k : K) (m : Dict K V) → lookup dec j (erase dec k m) ≡ ite (dec k j) none (lookup dec j m)
  unfolding lookup erase
  lookup-erase j k [] = ground arith
  lookup-erase j k ((i, w) ∷ m) = ground (arith, lookup-erase j k m)

  pub lookup-insert_self : (k : K) (v : V) (m : Dict K V) → lookup dec k (insert dec k v m) ≡ some v
  lookup-insert_self k v m = ground (arith, lookup-insert k k v m)

-- Maps of maps: `m[k1].find(k2)` where `k1` is there, and `m[k1][k2] = v`.
module _ {ℓ} {K L V : Type ℓ} (dec : Discrete K) (dec' : Discrete L) where
  unfoldable pub row : K → Dict K (Dict L V) → Dict L V
  row k m = elim (lookup dec k m) [ none ↦ [] | some r ↦ r ]

  unfoldable pub lookup₂ : K → L → Dict K (Dict L V) → Option V
  lookup₂ k l m = lookup dec' l (row k m)

  unfoldable pub insert₂ : K → L → V → Dict K (Dict L V) → Dict K (Dict L V)
  insert₂ k l v m = insert dec k (insert dec' l v (row k m)) m

  pub lookup₂-insert₂ :
      (j k : K) (i l : L) (v : V) (m : Dict K (Dict L V))
      → lookup₂ j i (insert₂ k l v m)
        ≡ ite (dec k j) (ite (dec' l i) (some v) (lookup₂ j i m)) (lookup₂ j i m)
  unfolding lookup₂ insert₂ row
  lookup₂-insert₂ j k i l v m = ground (
    arith,
    lookup-insert dec j k (insert dec' l v (row k m)) m,
    lookup-insert dec' i l v (row k m),
  )

  pub lookup₂-empty : (j : K) (i : L) → lookup₂ j i [] ≡ none
  unfolding lookup₂ row lookup
  lookup₂-empty j i = refl
