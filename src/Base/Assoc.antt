-- ===== src/Base/Assoc.antt =====
-- Go's maps with text keys, as association lists. No result depends on the order of the entries.
use mathlib.Core.Option
use knowledge_mesh.Base.Tests.{if◌then◌else◌}
use knowledge_mesh.Base.Text.{Text, text_beq, text_beq_iff}
use mathlib.Core.List.{List, [], ◌∷◌}
use mathlib.Core.Option.{Option, none, some}
use mathlib.Core.Path.{◌≡◌, refl}
use native.Mathlib.Omega.{arith}

abbrev pub Assoc {ℓ} : Type ℓ → Type ℓ
Assoc V = List (Text × V)

module _ {ℓ} {V : Type ℓ} where
  -- v, ok := m[k]
  unfoldable pub get : Assoc V → Text → Option V
  get [] k = none
  get ((j, v) ∷ m) k = let rest = get m k in if text_beq j k then some v else rest

  -- m[k] = v
  unfoldable pub put : Assoc V → Text → V → Assoc V
  put [] k v = (k, v) ∷ []
  put ((j, w) ∷ m) k v = let rest = put m k v in if text_beq j k then (j, v) ∷ m else (j, w) ∷ rest

  -- delete(m, k)
  unfoldable pub remove : Assoc V → Text → Assoc V
  remove [] k = []
  remove ((j, v) ∷ m) k = let rest = remove m k in if text_beq j k then rest else (j, v) ∷ rest

  pub get-put :
      (m : Assoc V) (k : Text) (v : V) (j : Text)
      → get (put m k v) j ≡ (if text_beq k j then some v else get m j)
  unfolding get put
  get-put [] k v j = refl
  get-put ((i, w) ∷ m) k v j =
      ground (arith, get-put m k v j, text_beq_iff i k, text_beq_iff i j, text_beq_iff k j)

  pub get-remove :
      (m : Assoc V) (k j : Text) → get (remove m k) j ≡ (if text_beq k j then none else get m j)
  unfolding get remove
  get-remove [] k j = ground arith
  get-remove ((i, w) ∷ m) k j =
      ground (arith, get-remove m k j, text_beq_iff i k, text_beq_iff i j, text_beq_iff k j)

pub ruleset map_laws = (get-put, get-remove)

module _ {ℓ} {V : Type ℓ} where
  -- Rewrites the value of a key that is there, and nothing else.
  unfoldable pub update : Assoc V → Text → (V → V) → Assoc V
  update [] k change = []
  update ((j, v) ∷ m) k change =
      let rest = update m k change in if text_beq j k then (j, change v) ∷ m else (j, v) ∷ rest

  pub get-update :
      (m : Assoc V) (k : Text) (change : V → V) (j : Text)
      → get (update m k change) j ≡ (if text_beq k j then Option.map change (get m j) else get m j)
  unfolding get update
  get-update [] k change j = ground arith
  get-update ((i, v) ∷ m) k change j =
      ground (arith, get-update m k change j, text_beq_iff i k, text_beq_iff i j, text_beq_iff k j)
