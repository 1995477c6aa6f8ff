-- ===== src/Prelude/Dict.antt =====
-- A `Map`, a KV namespace or a keyed table as an association list in insertion order.
use Prim.Native.String.{String}
use mathlib.Core.Path.{◌≡◌, refl}
use mathlib.Core.Option.{Option, none, some}
use mathlib.Core.List.{List, [], ◌∷◌}
use native.Mathlib.Omega.{arith}
use text.Mathlib.Text.{◌==◌ as is_key}
use text.Mathlib.TextEquality.{eq_iff}
use aether_dex.Prelude.Tests.{if◌then◌else◌}

-- One entry of a map.
pub record Entry {ℓ} (V : Type ℓ) : Type ℓ where
  pub key : String
  pub value : V

abbrev pub Dict {ℓ} : Type ℓ → Type ℓ
Dict V = List (Entry V)

module _ {ℓ} {V : Type ℓ} where
  -- `map.get(k)`
  unfoldable pub get : Dict V → String → Option V
  get [] k = none
  get (e ∷ rest) k = if is_key e.key k then some e.value else get rest k

  -- `map.set(k, v)`: a key that is there keeps its place.
  unfoldable pub put : Dict V → String → V → Dict V
  put [] k v = record { key = k; value = v } ∷ []
  put (e ∷ rest) k v = if is_key e.key k then record e { value = v } ∷ rest else e ∷ put rest k v

  -- `map.delete(k)`
  unfoldable pub remove : Dict V → String → Dict V
  remove [] k = []
  remove (e ∷ rest) k = let kept = remove rest k in if is_key e.key k then kept else e ∷ kept

  pub get-put :
      (table : Dict V) (k q : String) (v : V)
      → get (put table k v) q ≡ (if is_key k q then some v else get table q)
  unfolding get put
  get-put [] k q v = refl
  get-put (e ∷ rest) k q v =
      ground (arith, get-put rest k q v, eq_iff e.key k, eq_iff e.key q, eq_iff k q)

  pub get-remove :
      (table : Dict V) (k q : String)
      → get (remove table k) q ≡ (if is_key k q then none else get table q)
  unfolding get remove
  get-remove [] k q = ground arith
  get-remove (e ∷ rest) k q =
      ground (arith, get-remove rest k q, eq_iff e.key k, eq_iff e.key q, eq_iff k q)

  -- What holds of every value that a key finds.
  abbrev pub AllValues {κ} : (V → Type κ) → Dict V → Type (ℓ ⊔ κ)
  AllValues P table = (k : String) (v : V) → get table k ≡ some v → P v

  pub nil-AllValues {κ} : (P : V → Type κ) → AllValues P []
  unfolding get
  nil-AllValues P k v found = cc

  pub put-AllValues {κ} :
      (P : V → Type κ) (table : Dict V) (k : String) (v : V)
      → P v
      → AllValues P table
      → AllValues P (put table k v)
  put-AllValues P table k v p h q w found = ground (arith, get-put table k q v, h q w)
