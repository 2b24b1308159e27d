-- ===== src/Daemon/Persist/Keys.antt =====
-- The keys of the payouts, and the addresses in them.
use p2pool_salvium_observer.Prelude.{
  ◌<◌, ◌≡◌, refl, ap, ◌∙◌, sym, true, false, some, List, [], ◌∷◌, ◌++◌, arith, ◌==◌, All, lt→ltb,
  Bool-cases, inl, inr,
}
use mathlib.Core.List.{append_assoc, append-nil}
use p2pool_salvium_observer.Share.{bytes_eq}
use p2pool_salvium_observer.Share.Keys.{bytes_eq_sound, bytes_eq_refl}
use p2pool_salvium_observer.Daemon.{Text}
use p2pool_salvium_observer.Daemon.Persist.{
  payouts_key, add_byte, split_key, first_part, address_of_key,
}

-- ASCII, without a colon.
abbrev pub IsPlain : Text → Type 0
IsPlain = All (λ b. (b < 128) × ((b == 58) ≡ false))

split_key-append :
    (a b : Text) (parts : List Text) → split_key (a ++ b) parts ≡ split_key b (split_key a parts)
unfolding split_key
split_key-append [] b parts = refl
split_key-append (p ∷ a) b parts = split_key-append a b (add_byte parts p)

split_key-plain :
    (addr part : Text) → IsPlain addr → split_key addr (part ∷ []) ≡ (part ++ addr) ∷ []
unfolding split_key
split_key-plain [] part plain = ap (λ p. p ∷ []) (sym (append-nil part))
split_key-plain (b ∷ addr) part ((ascii, no_colon), plain) =
    rw (split_key, no_colon, lt→ltb b 128 ascii)
      (split_key-plain addr (part ++ (b ∷ [])) plain
        ∙ ap (λ p. p ∷ []) (append_assoc part (b ∷ []) addr))

-- The address comes back from its key.
pub address_of-payouts_key :
    (addr : Text) → IsPlain addr → address_of_key (payouts_key addr) ≡ some addr
unfolding address_of_key payouts_key split_key
address_of-payouts_key addr plain =
    let suffix = 58 ∷ 112 ∷ 97 ∷ 121 ∷ 111 ∷ 117 ∷ 116 ∷ 115 ∷ [] in
    ap first_part (
      split_key-append addr suffix ([] ∷ [])
      ∙ ap (split_key suffix) (split_key-plain addr [] plain))

pub bytes_eq-payouts_key :
    (a b : Text) → IsPlain a → IsPlain b → bytes_eq (payouts_key a) (payouts_key b) ≡ bytes_eq a b
bytes_eq-payouts_key a b plain plain' = elim (Bool-cases (bytes_eq a b)) [
  | inl same ↦ rw (bytes_eq_sound a b same) (bytes_eq_refl (payouts_key b) ∙ sym (bytes_eq_refl b))
  | inr other ↦ elim (Bool-cases (bytes_eq (payouts_key a) (payouts_key b))) [
    | inr apart ↦ apart ∙ sym other
    | inl same_key ↦
        let addrs : some a ≡ some b =
          sym (address_of-payouts_key a plain)
          ∙ ap address_of_key (bytes_eq_sound _ _ same_key)
          ∙ address_of-payouts_key b plain' in
        let same : a ≡ b = cc in
        let yes : bytes_eq a b ≡ true = rw same (bytes_eq_refl b) in absurd (ground arith)
  ]
]
