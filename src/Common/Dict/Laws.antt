-- ===== src/Common/Dict/Laws.antt =====
-- The laws of dictionaries: lookups after writes, and spreading a dictionary built by writes.
use Prim.Native.String.{String}
use mathlib.Core.Path.{◌≡◌, refl, sym, ◌∙◌, ap}
use mathlib.Core.Logic.{inl, inr}
use mathlib.Core.Bool.{true, false, ◌||◌}
use mathlib.Core.Option.{some}
use mathlib.Core.List.{[], ◌∷◌}
use native.Mathlib.Omega.{arith}
use text.Mathlib.Text.{◌==◌}
use text.Mathlib.TextEquality.{eq_iff}
use text.Mathlib.TextPositions.{eq_refl}
use pulumi_kubernetes.Common.Tests.{if◌then◌else◌, Bool-cases}
use pulumi_kubernetes.Common.Dict.Defs.{Dict, lookup, has, insert, spread, NodupKeys}

module _ {ℓ} {V : Type ℓ} where
  pub lookup-insert :
      (k j : String) (v : V) (d : Dict V)
      → lookup j (insert d k v) ≡ (if k == j then some v else lookup j d)
  unfolding lookup insert
  lookup-insert k j v [] = refl
  lookup-insert k j v ((i, w) ∷ d) =
      ground (arith, eq_iff k j, eq_iff i k, eq_iff i j, lookup-insert k j v d)

  pub has-insert : (k j : String) (v : V) (d : Dict V) → has (insert d k v) j ≡ (k == j || has d j)
  unfolding has insert
  has-insert k j v [] = refl
  has-insert k j v ((i, w) ∷ d) =
      ground (arith, eq_iff k j, eq_iff i k, eq_iff i j, has-insert k j v d)

  pub insert-NodupKeys : (d : Dict V) (k : String) (v : V) → NodupKeys d → NodupKeys (insert d k v)
  unfolding has insert
  insert-NodupKeys [] k v _ = (refl, tt)
  insert-NodupKeys ((j, w) ∷ d) k v (fresh, h) = elim (Bool-cases (j == k)) [
    | inl same ↦ rw same (fresh, h)
    | inr other ↦
        rw other
          (ground (arith, has-insert k j v d, eq_iff j k, eq_iff k j), insert-NodupKeys d k v h)
  ]

  insert-insert_self :
      (d : Dict V) (k : String) (v w : V) → insert (insert d k w) k v ≡ insert d k v
  unfolding insert
  insert-insert_self [] k v w = ground (arith, eq_iff k k)
  insert-insert_self ((j, u) ∷ d) k v w = ground (arith, eq_iff j k, insert-insert_self d k v w)

  -- Two writes commute when the second key was there before.
  insert_comm :
      (d : Dict V) (k j : String) (v w : V)
      → (k == j) ≡ false
      → has d k ≡ true
      → insert (insert d j w) k v ≡ insert (insert d k v) j w
  unfolding insert has
  insert_comm [] k j v w other old = cc
  insert_comm ((i, u) ∷ d) k j v w other old =
      ground (arith, eq_iff i k, eq_iff i j, eq_iff k j, insert_comm d k j v w)

  spread-insert_old :
      (d e : Dict V) (k : String) (v : V)
      → has d k ≡ true
      → has e k ≡ false
      → spread (insert d k v) e ≡ insert (spread d e) k v
  unfolding spread has
  spread-insert_old d [] k v old fresh = refl
  spread-insert_old d ((j, w) ∷ e) k v old fresh =
      rw (← insert_comm d k j v w (ground (arith, eq_iff k j, eq_iff j k)) old)
        (spread-insert_old (insert d j w) e k v (ground (arith, has-insert j k w d)) (ground arith))

  spread-insert_same :
      (d e : Dict V) (j : String) (v w : V)
      → has e j ≡ false
      → spread (insert d j v) e ≡ insert (spread (insert d j w) e) j v
  spread-insert_same d e j v w fresh =
      ap (λ x. spread x e) (sym (insert-insert_self d j v w))
      ∙ spread-insert_old (insert d j w) e j v (rw (has-insert j j w d, eq_refl)) fresh

  pub spread-insert :
      (d e : Dict V) (k : String) (v : V)
      → NodupKeys e
      → spread d (insert e k v) ≡ insert (spread d e) k v
  unfolding spread insert
  spread-insert d [] k v h = refl
  spread-insert d ((j, w) ∷ e) k v (fresh, h) = elim (Bool-cases (j == k)) [
    | inl same ↦ rw (same, ← (eq_iff j k).0 same) (spread-insert_same d e j v w fresh)
    | inr other ↦ rw other (spread-insert (insert d j w) e k v h)
  ]

  pub lookup-spread :
      (d e : Dict V) (k : String)
      → NodupKeys e
      → lookup k (spread d e) ≡ (if has e k then lookup k e else lookup k d)
  unfolding spread lookup has
  lookup-spread d [] k h = refl
  lookup-spread d ((j, w) ∷ e) k (fresh, h) =
      ground (arith, eq_iff j k, lookup-insert j k w d, lookup-spread (insert d j w) e k h)

  pub spread-NodupKeys : (d e : Dict V) → NodupKeys d → NodupKeys (spread d e)
  unfolding spread
  spread-NodupKeys d [] h = h
  spread-NodupKeys d ((k, v) ∷ e) h = spread-NodupKeys (insert d k v) e (insert-NodupKeys d k v h)
