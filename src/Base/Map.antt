-- ===== src/Base/Map.antt =====
-- Go's maps: association lists with one entry for each key. A program sees the order of the
-- entries only when it ranges over the map.
use Prim.Native.Nat.{ℕ}
use Prim.Native.String.{String}
use mathlib.Core.Path.{◌≡◌, refl}
use mathlib.Core.Logic.{◌↔◌}
use mathlib.Core.Bool.{Bool, true, false, ◌||◌}
use mathlib.Core.Option.{Option, none, some}
use mathlib.Core.List.{List, [], ◌∷◌}
use native.Mathlib.Omega.{arith}
use text.Mathlib.Text.{◌==◌ as str_eq}
use text.Mathlib.TextEquality.{eq_iff}
use job_schedular_service.Base.Tests.{if◌then◌else◌, nat_eqb, nat_eqb_iff}
use job_schedular_service.Base.Int.{ℤ, int_eqb, int_eqb_iff}

-- What a key type gives: an equality test that decides equality.
pub record Key {ℓ} (K : Type ℓ) : Type ℓ where
  pub eqb : K → K → Bool
  pub eqb_iff : (a b : K) → (eqb a b ≡ true) ↔ (a ≡ b)

instance abbrev pub nat_key : Key ℕ
nat_key = record { eqb = nat_eqb; eqb_iff = nat_eqb_iff }

instance abbrev pub int_key : Key ℤ
int_key = record { eqb = int_eqb; eqb_iff = int_eqb_iff }

instance abbrev pub string_key : Key String
string_key = record { eqb = str_eq; eqb_iff = eq_iff }

infix 50 ◌==◌
abbrev pub ◌==◌ {ℓ} : {K : Type ℓ} ⦃key : Key K⦄ → K → K → Bool
◌==◌ ⦃key⦄ = key.eqb

abbrev pub Map {ℓ κ} : Type ℓ → Type κ → Type (ℓ ⊔ κ)
Map K V = List (K × V)

pub eqb_refl {ℓ} : {K : Type ℓ} ⦃key : Key K⦄ (k : K) → (k == k) ≡ true
eqb_refl ⦃key⦄ k = (key.eqb_iff k k).1 refl

abbrev pub elem {ℓ} : {K : Type ℓ} ⦃key : Key K⦄ → K → List K → Bool
elem k [] = false
elem k (j ∷ js) = j == k || elem k js

module _ {ℓ κ} {K : Type ℓ} {V : Type κ} ⦃key : Key K⦄ where
  -- m[k], with the second result of `v, ok := m[k]`
  unfoldable pub get : Map K V → K → Option V
  get [] k = none
  get ((j, v) ∷ m) k = if j == k then some v else get m k

  -- delete(m, k)
  unfoldable pub delete : Map K V → K → Map K V
  delete [] k = []
  delete ((j, v) ∷ m) k = let rest = delete m k in if j == k then rest else (j, v) ∷ rest

  -- m[k] = v
  unfoldable pub put : Map K V → K → V → Map K V
  unfolding delete
  put m k v = (k, v) ∷ delete m k

  -- the second result of `_, ok := m[k]`
  abbrev pub contains : Map K V → K → Bool
  contains m k = elim (get m k) [ none ↦ false | some v ↦ true ]

  pub get-delete : (m : Map K V) (k j : K) → get (delete m k) j ≡ (if k == j then none else get m j)
  unfolding get delete
  get-delete [] k j = ground arith
  get-delete ((i, v) ∷ m) k j =
      ground (arith, get-delete m k j, key.eqb_iff i k, key.eqb_iff i j, key.eqb_iff k j)

  pub get-put :
      (m : Map K V) (k j : K) (v : V) → get (put m k v) j ≡ (if k == j then some v else get m j)
  unfolding get put
  get-put m k j v = ground (arith, get-delete m k j)

  -- No key has two entries.
  abbrev pub IsMap : Map K V → Type κ
  IsMap [] = Unit
  IsMap ((k, v) ∷ m) = (get m k ≡ none) × IsMap m

  pub delete-IsMap : (m : Map K V) (k : K) → IsMap m → IsMap (delete m k)
  unfolding delete
  delete-IsMap [] k h = tt
  delete-IsMap ((j, v) ∷ m) k h = ground (arith, delete-IsMap m k h.1, get-delete m k j)

  pub put-IsMap : (m : Map K V) (k : K) (v : V) → IsMap m → IsMap (put m k v)
  unfolding put
  put-IsMap m k v h = ground (arith, delete-IsMap m k h, get-delete m k k, eqb_refl k)
