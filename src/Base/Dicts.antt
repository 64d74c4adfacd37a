-- ===== src/Base/Dicts.antt =====
-- A Python dict as the list of its items, in the order in which the keys came in.
use mathlib.Core.Path.{◌≡◌, refl, ◌∙◌}
use mathlib.Core.Logic.{◌↔◌, inl, inr}
use mathlib.Core.Bool.{Bool, true}
use mathlib.Core.List.{List, [], ◌∷◌}
use mathlib.Core.Option.{Option, none, some}
use native.Mathlib.Omega.{arith}
use news2reel.Base.Tests.{if◌then◌else◌, Bool-cases}

abbrev pub Dict : Type 0 → Type 0 → Type 0
Dict K V = List (K × V)

module _ {K V : Type 0} (same : K → K → Bool) where
  -- `d.get(key)`
  unfoldable pub dict_get : K → Dict K V → Option V
  dict_get key [] = none
  dict_get key (item ∷ d) =
      let rest = dict_get key d in if same item.0 key then some item.1 else rest

  -- `d[key] = value`
  unfoldable pub dict_set : K → V → Dict K V → Dict K V
  dict_set key value [] = (key, value) ∷ []
  dict_set key value (item ∷ d) =
      let rest = dict_set key value d in
      if same item.0 key then (item.0, value) ∷ d else item ∷ rest

module _ {K V : Type 0} (same : K → K → Bool)
    (same_iff : (a b : K) → (same a b ≡ true) ↔ (a ≡ b)) where
  pub dict_get-dict_set :
      (key other : K) (value : V) (d : Dict K V)
      → dict_get same key (dict_set same other value d)
        ≡ (if same other key then some value else dict_get same key d)
  unfolding dict_get dict_set
  dict_get-dict_set key other value [] = refl
  dict_get-dict_set key other value (item ∷ d) = ground (
    arith,
    dict_get-dict_set key other value d,
    same_iff item.0 other,
    same_iff item.0 key,
    same_iff other key,
  )

  -- No key stands twice.
  abbrev pub Once : Dict K V → Type 0
  Once [] = Unit
  Once (item ∷ d) = (dict_get same item.0 d ≡ none) × Once d

  pub dict_set-Once :
      (key : K) (value : V) (d : Dict K V) → Once d → Once (dict_set same key value d)
  unfolding dict_get dict_set
  dict_set-Once key value [] h = (refl, tt)
  dict_set-Once key value (item ∷ d) h = elim (Bool-cases (same item.0 key)) [
    | inl e ↦ rw e h
    | inr f ↦
        let kept : dict_get same item.0 (dict_set same key value d) ≡ none =
          dict_get-dict_set item.0 key value d
          ∙ ground (arith, same_iff item.0 key, same_iff key item.0, h.0) in
        rw f (kept, dict_set-Once key value d h.1)
  ]
