-- ===== src/Base/Dict.antt =====
-- A Python dict with text keys, in insertion order, as an association list.
use mathlib.Core.List.{List, [], ◌∷◌, ◌++◌}
use mathlib.Core.Path.{◌≡◌, refl}
use mathlib.Core.Bool.{Bool, false}
use mathlib.Core.Option.{Option, none, some}
use Prim.Native.Nat.{◌+◌, ◌≤◌}
use Prim.Native.String.{String}
use text.Mathlib.Text.{◌==◌}
use text.Mathlib.TextEquality.{eq_iff}
use native.Mathlib.Omega.{arith}
use ming_jian.Base.Tests.{if◌then◌else◌}
use ming_jian.Base.Lists.{length, keep_if}

abbrev pub Dict {ℓ} : Type ℓ → Type ℓ
Dict V = List (String × V)

module _ {ℓ} {V : Type ℓ} where
  -- `d.get(k)`
  unfoldable pub lookup : String → Dict V → Option V
  lookup k [] = none
  lookup k ((j, v) ∷ d) = if j == k then some v else lookup k d

  -- `d.pop(k, None)`
  unfoldable pub erase : String → Dict V → Dict V
  erase k [] = []
  erase k ((j, v) ∷ d) = if j == k then d else (j, v) ∷ erase k d

  -- `d[k] = v` for a key that is not there, which goes to the end.
  abbrev pub add_last : String → V → Dict V → Dict V
  add_last k v d = d ++ (k, v) ∷ []

  -- `d[k] = v`: a key that is there keeps its place.
  unfoldable pub set_item : String → V → Dict V → Dict V
  set_item k v [] = (k, v) ∷ []
  set_item k v ((j, w) ∷ d) = if j == k then (j, v) ∷ d else (j, w) ∷ set_item k v d

  -- No key is listed twice.
  abbrev pub IsDistinct : Dict V → Type ℓ
  IsDistinct [] = Unit
  IsDistinct ((k, v) ∷ d) = (lookup k d ≡ none) × IsDistinct d

module _ {ℓ} {V : Type ℓ} where
  pub lookup-erase_ne :
      (k j : String) (d : Dict V) → (k == j) ≡ false → lookup j (erase k d) ≡ lookup j d
  unfolding lookup erase
  lookup-erase_ne k j [] h = refl
  lookup-erase_ne k j ((i, v) ∷ d) h =
      ground (arith, lookup-erase_ne k j d h, eq_iff i k, eq_iff i j, eq_iff k j)

  pub lookup-set_item :
      (k j : String) (v : V) (d : Dict V)
      → lookup j (set_item k v d) ≡ (if k == j then some v else lookup j d)
  unfolding lookup set_item
  lookup-set_item k j v [] = refl
  lookup-set_item k j v ((i, w) ∷ d) =
      ground (arith, lookup-set_item k j v d, eq_iff i k, eq_iff i j, eq_iff k j)

  pub lookup-erase_self : (k : String) (d : Dict V) → IsDistinct d → lookup k (erase k d) ≡ none
  unfolding lookup erase
  lookup-erase_self k [] h = refl
  lookup-erase_self k ((i, v) ∷ d) h = ground (arith, lookup-erase_self k d h.1, eq_iff i k)

  pub lookup-add_last :
      (k j : String) (v : V) (d : Dict V)
      → lookup k d ≡ none
      → lookup j (add_last k v d) ≡ (if k == j then some v else lookup j d)
  unfolding lookup
  lookup-add_last k j v [] h = refl
  lookup-add_last k j v ((i, w) ∷ d) h =
      ground (arith, lookup-add_last k j v d, eq_iff i k, eq_iff i j, eq_iff k j)

  pub erase-IsDistinct : (k : String) (d : Dict V) → IsDistinct d → IsDistinct (erase k d)
  unfolding lookup erase
  erase-IsDistinct k [] h = h
  erase-IsDistinct k ((i, v) ∷ d) h =
      ground (arith, erase-IsDistinct k d h.1, lookup-erase_ne k i d, eq_iff i k, eq_iff k i)

  pub add_last-IsDistinct :
      (k : String) (v : V) (d : Dict V)
      → IsDistinct d
      → lookup k d ≡ none
      → IsDistinct (add_last k v d)
  unfolding lookup
  add_last-IsDistinct k v [] h n = (refl, tt)
  add_last-IsDistinct k v ((i, w) ∷ d) h n =
      ground (arith, add_last-IsDistinct k v d h.1, lookup-add_last k i v d, eq_iff i k, eq_iff k i)

  pub length-erase : (k : String) (d : Dict V) → length (erase k d) ≤ length d
  unfolding erase
  length-erase k [] = omega arith
  length-erase k ((i, v) ∷ d) = ground (arith, length-erase k d)

  -- Erasing a key that is there makes the dictionary shorter by one entry.
  pub length-erase_found :
      (k : String) (v : V) (d : Dict V) → lookup k d ≡ some v → length (erase k d) + 1 ≡ length d
  unfolding lookup erase
  length-erase_found k v [] h = cc
  length-erase_found k v ((i, w) ∷ d) h = ground (arith, length-erase_found k v d)

  -- A filter on the values keeps keys apart.
  pub lookup-keep_if-none :
      (p : String × V → Bool) (k : String) (d : Dict V)
      → lookup k d ≡ none
      → lookup k (keep_if p d) ≡ none
  unfolding lookup
  lookup-keep_if-none p k [] h = h
  lookup-keep_if-none p k ((i, w) ∷ d) h = ground (arith, lookup-keep_if-none p k d)

  pub keep_if-IsDistinct :
      (p : String × V → Bool) (d : Dict V) → IsDistinct d → IsDistinct (keep_if p d)
  unfolding lookup
  keep_if-IsDistinct p [] h = h
  keep_if-IsDistinct p ((i, w) ∷ d) h =
      ground (arith, keep_if-IsDistinct p d h.1, lookup-keep_if-none p i d h.0)
