-- ===== src/Share/Keys.antt =====
-- Equality of hashes and addresses, and maps keyed by them.
use p2pool_salvium_observer.Prelude.{
  ◌≡◌, refl, ℕ, true, List, [], ◌∷◌, Option, none, some, arith, if◌then◌else◌, All, Bool-cases, inl,
  inr,
}
use p2pool_salvium_observer.Share.{Hash, Address, bytes_eq, address_eq}

pub bytes_eq_sound : (a b : List ℕ) → bytes_eq a b ≡ true → a ≡ b
unfolding bytes_eq
bytes_eq_sound [] [] h = refl
bytes_eq_sound [] (b ∷ bs) h = cc
bytes_eq_sound (a ∷ l) [] h = cc
bytes_eq_sound (a ∷ l) (b ∷ bs) h = ground (arith, bytes_eq_sound l bs)

pub bytes_eq_refl : (a : List ℕ) → bytes_eq a a ≡ true
unfolding bytes_eq
bytes_eq_refl [] = refl
bytes_eq_refl (a ∷ l) = ground (arith, bytes_eq_refl l)

pub address_eq_sound : (a b : Address) → address_eq a b ≡ true → a ≡ b
unfolding address_eq
address_eq_sound a b h = ground (
  arith,
  bytes_eq_sound a.spend_public_key b.spend_public_key,
  bytes_eq_sound a.view_public_key b.view_public_key,
)

pub address_eq_refl : (a : Address) → address_eq a a ≡ true
unfolding address_eq
address_eq_refl a =
    ground (arith, bytes_eq_refl a.spend_public_key, bytes_eq_refl a.view_public_key)

-- A Go map from hashes. An assignment to a new key goes to the end of the list; the order stands
-- for nothing, since Go iterates over a map in any order.
module _ {ℓ} {V : Type ℓ} where
  abbrev pub lookup_hash : Hash → List (Hash × V) → Option V
  lookup_hash k [] = none
  lookup_hash k ((j, v) ∷ m) = if bytes_eq j k then some v else lookup_hash k m

  abbrev pub insert_hash : Hash → V → List (Hash × V) → List (Hash × V)
  insert_hash k v [] = (k, v) ∷ []
  insert_hash k v ((j, w) ∷ m) = if bytes_eq j k then (j, v) ∷ m else (j, w) ∷ insert_hash k v m

  -- What holds of all the values holds of the value that is found.
  pub lookup_hash-All :
      (P : V → Type 0) (k : Hash) (v : V) (m : List (Hash × V))
      → All (λ e. P e.1) m
      → lookup_hash k m ≡ some v
      → P v
  lookup_hash-All P k v [] h e = cc
  lookup_hash-All P k v ((j, w) ∷ m) h e = elim (Bool-cases (bytes_eq j k)) [
    | inl same ↦ (let f : w ≡ v = cc (rw same at e) in rw (← f) h.0)
    | inr other ↦ lookup_hash-All P k v m h.1 (rw other at e)
  ]

  pub lookup-insert_hash :
      (k j : Hash) (v : V) (m : List (Hash × V))
      → lookup_hash j (insert_hash k v m) ≡ (if bytes_eq k j then some v else lookup_hash j m)
  lookup-insert_hash k j v [] = refl
  lookup-insert_hash k j v ((i, w) ∷ m) = ground (
    arith,
    bytes_eq_sound i k,
    bytes_eq_sound i j,
    bytes_eq_sound k j,
    bytes_eq_refl k,
    lookup-insert_hash k j v m,
  )

-- A Go map from addresses.
module _ {ℓ} {V : Type ℓ} where
  abbrev pub lookup_address : Address → List (Address × V) → Option V
  lookup_address k [] = none
  lookup_address k ((j, v) ∷ m) = if address_eq j k then some v else lookup_address k m

  abbrev pub insert_address : Address → V → List (Address × V) → List (Address × V)
  insert_address k v [] = (k, v) ∷ []
  insert_address k v ((j, w) ∷ m) =
      if address_eq j k then (j, v) ∷ m else (j, w) ∷ insert_address k v m
