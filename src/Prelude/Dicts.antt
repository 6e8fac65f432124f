-- ===== src/Prelude/Dicts.antt =====
-- Dictionaries, as the entries in the order in which a loop over the dictionary meets them.
use mathlib.Core.Path.{◌≡◌, refl}
use mathlib.Core.Bool.{Bool, false}
use mathlib.Core.Option.{Option, none, some}
use mathlib.Core.List.{List, [], ◌∷◌, ◌++◌}
use native.Mathlib.Omega.{arith}
use ixp_irc.Prelude.Tests.{if◌then◌else◌}
use ixp_irc.Prelude.Classes.{Eq, ◌==◌, beq_refl}
use ixp_irc.Prelude.Lists.{contains, Distinct, All}
use ixp_irc.Prelude.Results.{Result, ok, raise, key_error}

abbrev pub Dict {ℓ κ} : Type ℓ → Type κ → Type (ℓ ⊔ κ)
Dict K V = List (K × V)

module _ {ℓ κ} {K : Type ℓ} {V : Type κ} where
  abbrev pub keys : Dict K V → List K
  keys [] = []
  keys ((j, v) ∷ m) = j ∷ keys m

  abbrev pub values : Dict K V → List V
  values [] = []
  values ((j, v) ∷ m) = v ∷ values m

module _ {ℓ κ} {K : Type ℓ} {V : Type κ} ⦃e : Eq K⦄ where
  unfoldable pub lookup : K → Dict K V → Option V
  lookup k [] = none
  lookup k ((j, v) ∷ m) = if k == j then some v else lookup k m

  -- `m[k]`
  unfoldable pub get : Dict K V → K → Result V
  unfolding lookup
  get m k = elim (lookup k m) [ none ↦ raise key_error | some v ↦ ok v ]

  -- `m[k] = v`: the entry keeps its place, a new one goes to the end
  unfoldable pub put : K → V → Dict K V → Dict K V
  put k v [] = (k, v) ∷ []
  put k v ((j, w) ∷ m) = if k == j then (k, v) ∷ m else (j, w) ∷ put k v m

  -- `k in m`
  abbrev pub has_key : K → Dict K V → Bool
  has_key k m = contains k (keys m)

  pub lookup-put :
      (k j : K) (v : V) (m : Dict K V)
      → lookup j (put k v m) ≡ (if j == k then some v else lookup j m)
  unfolding lookup put
  lookup-put k j v [] = refl
  lookup-put k j v ((i, w) ∷ m) =
      ground (arith, e.reflects k i, e.reflects j k, e.reflects j i, beq_refl k, lookup-put k j v m)

  pub lookup-append_skip :
      (k : K) (m n : Dict K V) → has_key k m ≡ false → lookup k (m ++ n) ≡ lookup k n
  unfolding lookup contains
  lookup-append_skip k [] n h = refl
  lookup-append_skip k ((j, v) ∷ m) n h = ground (arith, lookup-append_skip k m n)

  pub put-append_skip :
      (k : K) (v : V) (m n : Dict K V) → has_key k m ≡ false → put k v (m ++ n) ≡ m ++ put k v n
  unfolding put contains
  put-append_skip k v [] n h = refl
  put-append_skip k v ((j, w) ∷ m) n h = ground (arith, put-append_skip k v m n)

  pub lookup_head : (k : K) (v : V) (m : Dict K V) → lookup k ((k, v) ∷ m) ≡ some v
  unfolding lookup
  lookup_head k v m = rw (beq_refl k)

  pub put_head : (k : K) (v w : V) (m : Dict K V) → put k v ((k, w) ∷ m) ≡ (k, v) ∷ m
  unfolding put
  put_head k v w m = rw (beq_refl k)

  lookup_weaken :
      (j : K) (v : V) (m n : Dict K V)
      → contains j (keys n) ≡ false
      → All (λ (en : K × V). lookup en.0 m ≡ some en.1) n
      → All (λ (en : K × V). lookup en.0 ((j, v) ∷ m) ≡ some en.1) n
  unfolding lookup contains
  lookup_weaken j v m [] h a = tt
  lookup_weaken j v m ((k, w) ∷ n) h a =
      (ground (arith, e.reflects j k, e.reflects k j), lookup_weaken j v m n (ground arith) a.1)

  -- In a dictionary each key stands once, so each entry is the one that its key finds.
  pub All-lookup :
      (m : Dict K V) → Distinct (keys m) → All (λ (en : K × V). lookup en.0 m ≡ some en.1) m
  All-lookup [] h = tt
  All-lookup ((k, v) ∷ m) h = (lookup_head k v m, lookup_weaken k v m m h.0 (All-lookup m h.1))
