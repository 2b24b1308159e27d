-- ===== src/Daemon.antt =====
-- cmd/daemon/main.go: the data of the daemon. The modules below have its operations. Texts are
-- lists of bytes; a map from heights is an association list.
pub mod Tip
pub mod Decimal
pub mod Entries
pub mod Orphans
pub mod Payouts
pub mod Finder
pub mod Shares
pub mod Stats
pub mod Window
pub mod Cycle
pub mod Rebuild
pub mod Persist
use p2pool_salvium_observer.Prelude.{
  ℕ, ◌≡◌, refl, ◌∙◌, Bool, true, false, Option, none, some, List, [], ◌∷◌, arith, ◌==◌,
  if◌then◌else◌, ==_iff,
}
use p2pool_salvium_observer.Word.Int.{ℤ}

abbrev pub Text : Type 0
Text = List ℕ

pub record FoundBlock : Type 0 where
  pub timestamp : ℤ
  pub height : ℕ
  pub hash : Text
  pub difficulty : Text
  pub total_hashes : Text
  pub reward : ℕ
  pub finder : Text

-- Without the percentage, a float64 that is only shown.
pub record Payout : Type 0 where
  pub block_height : ℕ
  pub block_hash : Text
  pub amount : ℕ
  pub timestamp : ℤ

-- A Go map from uint64.
module _ {ℓ} {V : Type ℓ} where
  abbrev pub lookup_height : ℕ → List (ℕ × V) → Option V
  lookup_height k [] = none
  lookup_height k ((j, v) ∷ m) = if j == k then some v else lookup_height k m

  abbrev pub insert_height : ℕ → V → List (ℕ × V) → List (ℕ × V)
  insert_height k v [] = (k, v) ∷ []
  insert_height k v ((j, w) ∷ m) = if j == k then (j, v) ∷ m else (j, w) ∷ insert_height k v m

  pub lookup-insert_height :
      (k j : ℕ) (v : V) (m : List (ℕ × V))
      → lookup_height j (insert_height k v m) ≡ (if k == j then some v else lookup_height j m)
  lookup-insert_height k j v [] = refl
  lookup-insert_height k j v ((i, w) ∷ m) =
      ground (arith, ==_iff i k, ==_iff i j, ==_iff k j, lookup-insert_height k j v m)

  pub lookup-insert_same :
      (k j : ℕ) (v : V) (m : List (ℕ × V))
      → (k == j) ≡ true
      → lookup_height j (insert_height k v m) ≡ some v
  lookup-insert_same k j v m same = lookup-insert_height k j v m ∙ rw same refl

  pub lookup-insert_other :
      (k j : ℕ) (v : V) (m : List (ℕ × V))
      → (k == j) ≡ false
      → lookup_height j (insert_height k v m) ≡ lookup_height j m
  lookup-insert_other k j v m other = lookup-insert_height k j v m ∙ rw other refl

-- `m[k]` of a map to bool, which is false on a missing key.
abbrev pub is_set : Option Bool → Bool
is_set none = false
is_set (some b) = b
