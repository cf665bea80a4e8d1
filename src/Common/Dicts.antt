-- ===== src/Common/Dicts.antt =====
-- Python dictionaries as association lists: a write keeps the place of an old key and puts a new
-- key last, as `dict` does.
use mathlib.Core.Path.{◌≡◌, refl}
use mathlib.Core.Bool.{true}
use mathlib.Core.List.{List, [], ◌∷◌}
use mathlib.Core.Option.{Option, none, some}
use native.Mathlib.Omega.{arith}
use labelfab.Common.Tests.{Eq, if◌then◌else◌}

abbrev pub Dict {ℓ κ} : Type ℓ → Type κ → Type (ℓ ⊔ κ)
Dict K V = List (K × V)

pub beq_self {ℓ} : {K : Type ℓ} ⦃e : Eq K⦄ (k : K) → e.beq k k ≡ true
beq_self ⦃e⦄ k = (e.beq_iff k k).1 refl

module _ {ℓ κ} {K : Type ℓ} {V : Type κ} ⦃e : Eq K⦄ where
  -- d.get(k)
  unfoldable pub dict_get : K → Dict K V → Option V
  dict_get k [] = none
  dict_get k ((j, v) ∷ d) = if e.beq j k then some v else dict_get k d

  -- d[k] = v
  unfoldable pub dict_set : K → V → Dict K V → Dict K V
  dict_set k v [] = (k, v) ∷ []
  dict_set k v ((j, w) ∷ d) = if e.beq j k then (j, v) ∷ d else (j, w) ∷ dict_set k v d

  -- d.pop(k, None), without the value
  unfoldable pub dict_pop : K → Dict K V → Dict K V
  dict_pop k [] = []
  dict_pop k ((j, v) ∷ d) = if e.beq j k then dict_pop k d else (j, v) ∷ dict_pop k d

  pub dict_get-dict_set :
      (k j : K) (v : V) (d : Dict K V)
      → dict_get j (dict_set k v d) ≡ (if e.beq k j then some v else dict_get j d)
  unfolding dict_get dict_set
  dict_get-dict_set k j v [] = refl
  dict_get-dict_set k j v ((i, w) ∷ d) =
      ground (arith, e.beq_iff i k, e.beq_iff i j, e.beq_iff k j, dict_get-dict_set k j v d)

  pub dict_get-dict_pop :
      (k j : K) (d : Dict K V)
      → dict_get j (dict_pop k d) ≡ (if e.beq k j then none else dict_get j d)
  unfolding dict_get dict_pop
  dict_get-dict_pop k j [] = ground arith
  dict_get-dict_pop k j ((i, w) ∷ d) =
      ground (arith, e.beq_iff i k, e.beq_iff i j, e.beq_iff k j, dict_get-dict_pop k j d)
