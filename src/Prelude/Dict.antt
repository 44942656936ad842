-- ===== src/Prelude/Dict.antt =====
-- `std::unordered_map` and `std::unordered_multimap` as association lists, and their laws.
use mathlib.Core.Path.{◌≡◌, refl, ap}
use mathlib.Core.Logic.{◌↔◌, ◌⊎◌, inl, inr, ◌≢◌}
use mathlib.Core.Bool.{Bool, true}
use mathlib.Core.Option.{Option, none, some}
use mathlib.Core.List.{List, [], ◌∷◌, ◌++◌}
use native.Mathlib.Omega.{arith}
use neta_agent.Prelude.Tests.{if◌then◌else◌, Option-cases}
use neta_agent.Prelude.Equality.{EqTest, ◌==◌, eq_iff, eq_refl}
use neta_agent.Prelude.Lists.{In, In-append, is_some}

abbrev pub Dict : Type 0 → Type 0 → Type 0
Dict K V = List (K × V)

-- No element occurs twice.
abbrev pub Distinct : {A : Type 0} → List A → Type 0
Distinct [] = Unit
Distinct (x ∷ xs) = (¬ (In x xs)) × Distinct xs

pub Distinct-append :
    {A : Type 0} (xs : List A) (x : A) → Distinct xs → ¬ (In x xs) → Distinct (xs ++ x ∷ [])
Distinct-append [] x d out = (λ m. m, tt)
Distinct-append (y ∷ xs) x d out = ground (arith, Distinct-append xs x, In-append y xs (x ∷ []))

module _ {K V : Type 0} where
  abbrev pub keys : Dict K V → List K
  keys [] = []
  keys ((k, v) ∷ d) = k ∷ keys d

  pub keys-append : (d : Dict K V) (k : K) (v : V) → keys (d ++ (k, v) ∷ []) ≡ keys d ++ k ∷ []
  keys-append [] k v = refl
  keys-append ((j, w) ∷ d) k v = ap (λ t. j ∷ t) (keys-append d k v)

  -- The entries as an inverted index lists them.
  abbrev pub swapped : Dict K V → Dict V K
  swapped [] = []
  swapped ((k, v) ∷ d) = (v, k) ∷ swapped d

  pub swapped-append :
      (d : Dict K V) (k : K) (v : V) → swapped (d ++ (k, v) ∷ []) ≡ swapped d ++ (v, k) ∷ []
  swapped-append [] k v = refl
  swapped-append ((j, w) ∷ d) k v = ap (λ t. (w, j) ∷ t) (swapped-append d k v)

module _ {K V : Type 0} ⦃e : EqTest K⦄ where
  -- `find`
  abbrev pub lookup : K → Dict K V → Option V
  lookup k [] = none
  lookup k ((j, v) ∷ d) = if j == k then some v else lookup k d

  abbrev pub has_key : K → Dict K V → Bool
  has_key k d = is_some (lookup k d)

  -- `emplace`: an entry that is there stays.
  abbrev pub emplace : K → V → Dict K V → Dict K V
  emplace k v d = if has_key k d then d else d ++ (k, v) ∷ []

  -- `d[k] = v`
  abbrev pub assign : K → V → Dict K V → Dict K V
  assign k v [] = (k, v) ∷ []
  assign k v ((j, w) ∷ d) = if j == k then (j, v) ∷ d else (j, w) ∷ assign k v d

  abbrev pub erase : K → Dict K V → Dict K V
  erase k [] = []
  erase k ((j, v) ∷ d) = if j == k then d else (j, v) ∷ erase k d

  -- A write through the iterator that `find` returned.
  abbrev pub update : K → (V → V) → Dict K V → Dict K V
  update k f [] = []
  update k f ((j, v) ∷ d) = if j == k then (j, f v) ∷ d else (j, v) ∷ update k f d

  -- `extract`, a new key, and `insert` again.
  abbrev pub rekey : K → K → Dict K V → Dict K V
  rekey k k' [] = []
  rekey k k' ((j, v) ∷ d) = if j == k then (k', v) ∷ d else (j, v) ∷ rekey k k' d

  pub lookup-none : (k : K) (d : Dict K V) → (lookup k d ≡ none) ↔ (¬ (In k (keys d)))
  lookup-none k [] = (λ h m. m, λ h. refl)
  lookup-none k ((j, v) ∷ d) = ground (arith, eq_iff j k, lookup-none k d)

  pub has_key-In : (k : K) (d : Dict K V) → (has_key k d ≡ true) ↔ In k (keys d)
  has_key-In k [] = (λ h. cc, λ m. elim m [ ])
  has_key-In k ((j, v) ∷ d) = ground (arith, eq_iff j k, has_key-In k d)

  pub keys-update : (k : K) (f : V → V) (d : Dict K V) → keys (update k f d) ≡ keys d
  keys-update k f [] = refl
  keys-update k f ((j, v) ∷ d) = ground (arith, keys-update k f d)

  pub In-erase : (i k : K) (d : Dict K V) → In i (keys (erase k d)) → In i (keys d)
  In-erase i k [] m = m
  In-erase i k ((j, v) ∷ d) m = ground (arith, In-erase i k d)

  pub In-rekey : (i k k' : K) (d : Dict K V) → In i (keys (rekey k k' d)) → (k' ≡ i) ⊎ In i (keys d)
  In-rekey i k k' [] m = inr m
  In-rekey i k k' ((j, v) ∷ d) m = ground (arith, In-rekey i k k' d)

  pub erase-Distinct : (k : K) (d : Dict K V) → Distinct (keys d) → Distinct (keys (erase k d))
  erase-Distinct k [] h = tt
  erase-Distinct k ((j, v) ∷ d) h = ground (arith, erase-Distinct k d, In-erase j k d)

  pub rekey-Distinct :
      (k k' : K) (d : Dict K V)
      → Distinct (keys d)
      → ¬ (In k' (keys d))
      → Distinct (keys (rekey k k' d))
  rekey-Distinct k k' [] h out = tt
  rekey-Distinct k k' ((j, v) ∷ d) h out = ground (arith, rekey-Distinct k k' d, In-rekey j k k' d)

  pub erase-absent : (k : K) (d : Dict K V) → ¬ (In k (keys d)) → erase k d ≡ d
  erase-absent k [] h = refl
  erase-absent k ((j, v) ∷ d) h = ground (arith, eq_iff j k, erase-absent k d)

module _ {K : Type 0} ⦃e : EqTest K⦄ where
  -- The keys under `erase` and `rekey`.
  abbrev remove_first : K → List K → List K
  remove_first k [] = []
  remove_first k (j ∷ ks) = if j == k then ks else j ∷ remove_first k ks

  abbrev replace_first : K → K → List K → List K
  replace_first k k' [] = []
  replace_first k k' (j ∷ ks) = if j == k then k' ∷ ks else j ∷ replace_first k k' ks

  pub keys-erase : {V : Type 0} (k : K) (d : Dict K V) → keys (erase k d) ≡ remove_first k (keys d)
  keys-erase k [] = refl
  keys-erase k ((j, v) ∷ d) = ground (arith, keys-erase k d)

  pub keys-rekey :
      {V : Type 0} (k k' : K) (d : Dict K V) → keys (rekey k k' d) ≡ replace_first k k' (keys d)
  keys-rekey k k' [] = refl
  keys-rekey k k' ((j, v) ∷ d) = ground (arith, keys-rekey k k' d)

module _ {K V : Type 0} ⦃e : EqTest K⦄ where
  pub lookup-rekey :
      (k k' : K) (v : V) (d : Dict K V)
      → lookup k d ≡ some v
      → ¬ (In k' (keys d))
      → lookup k' (rekey k k' d) ≡ some v
  lookup-rekey k k' v [] h out = cc
  lookup-rekey k k' v ((j, w) ∷ d) h out =
      ground (arith, eq_iff j k', eq_refl k', lookup-rekey k k' v d)

  pub lookup-update :
      (k : K) (f : V → V) (v : V) (d : Dict K V)
      → lookup k d ≡ some v
      → lookup k (update k f d) ≡ some (f v)
  lookup-update k f v [] h = cc
  lookup-update k f v ((j, w) ∷ d) h = ground (arith, lookup-update k f v d)

  pub has_key-some : (k : K) (d : Dict K V) → has_key k d ≡ true → (v : V) × (lookup k d ≡ some v)
  has_key-some k d h = elim (Option-cases (lookup k d)) [
    | inl missing ↦ cc (rw missing at h)
    | inr found ↦ found
  ]

-- An entry in the middle of a map.
module _ {K V : Type 0} ⦃e : EqTest K⦄ (k : K) (v : V) (rest : Dict K V) where
  In-middle : (d : Dict K V) → In k (keys (d ++ (k, v) ∷ rest))
  In-middle [] = inl refl
  In-middle ((j, w) ∷ d) = inr (In-middle d)

  pub absent-before : (d : Dict K V) → Distinct (keys (d ++ (k, v) ∷ rest)) → ¬ (In k (keys d))
  absent-before [] h m = m
  absent-before ((j, w) ∷ d) h m = ground (arith, In-middle d, absent-before d)

  pub lookup-middle : (d : Dict K V) → ¬ (In k (keys d)) → lookup k (d ++ (k, v) ∷ rest) ≡ some v
  lookup-middle [] out = ground (arith, eq_refl k)
  lookup-middle ((j, w) ∷ d) out = ground (arith, eq_iff j k, lookup-middle d)

  pub update-middle :
      (f : V → V) (d : Dict K V)
      → ¬ (In k (keys d))
      → update k f (d ++ (k, v) ∷ rest) ≡ d ++ (k, f v) ∷ rest
  update-middle f [] out = ground (arith, eq_refl k)
  update-middle f ((j, w) ∷ d) out = ground (arith, eq_iff j k, update-middle f d)

  pub erase-middle : (d : Dict K V) → ¬ (In k (keys d)) → erase k (d ++ (k, v) ∷ rest) ≡ d ++ rest
  erase-middle [] out = ground (arith, eq_refl k)
  erase-middle ((j, w) ∷ d) out = ground (arith, eq_iff j k, erase-middle d)

pub append-middle :
    {A : Type 0} (xs : List A) (y : A) (zs : List A) → xs ++ y ∷ zs ≡ (xs ++ y ∷ []) ++ zs
append-middle [] y zs = refl
append-middle (x ∷ xs) y zs = ap (λ t. x ∷ t) (append-middle xs y zs)

pub append-nil : {A : Type 0} (xs : List A) → xs ++ [] ≡ xs
append-nil [] = refl
append-nil (x ∷ xs) = ap (λ t. x ∷ t) (append-nil xs)

module _ {K V : Type 0} ⦃e : EqTest K⦄ where
  pub lookup-assign : (k : K) (v : V) (d : Dict K V) → lookup k (assign k v d) ≡ some v
  lookup-assign k v [] = ground (arith, eq_refl k)
  lookup-assign k v ((j, w) ∷ d) = ground (arith, lookup-assign k v d)

  -- An entry is not touched by what happens to another key.
  pub lookup-update_other :
      (i k : K) (f : V → V) (d : Dict K V) → k ≢ i → lookup i (update k f d) ≡ lookup i d
  lookup-update_other i k f [] n = refl
  lookup-update_other i k f ((j, w) ∷ d) n =
      ground (arith, eq_iff j k, eq_iff j i, lookup-update_other i k f d)

  pub lookup-rekey_other :
      (i k k' : K) (d : Dict K V) → k ≢ i → k' ≢ i → lookup i (rekey k k' d) ≡ lookup i d
  lookup-rekey_other i k k' [] n n' = refl
  lookup-rekey_other i k k' ((j, w) ∷ d) n n' =
      ground (arith, eq_iff j k, eq_iff j i, eq_iff k' i, lookup-rekey_other i k k' d)

  lookup-append_other :
      (i k : K) (v : V) (d : Dict K V) → k ≢ i → lookup i (d ++ (k, v) ∷ []) ≡ lookup i d
  lookup-append_other i k v [] n = ground (arith, eq_iff k i)
  lookup-append_other i k v ((j, w) ∷ d) n = ground (arith, lookup-append_other i k v d)

  pub lookup-emplace_other :
      (i k : K) (v : V) (d : Dict K V) → k ≢ i → lookup i (emplace k v d) ≡ lookup i d
  lookup-emplace_other i k v d n = ground (arith, lookup-append_other i k v d)
