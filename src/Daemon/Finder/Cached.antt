-- ===== src/Daemon/Finder/Cached.antt =====
-- The cache of the finders (`d.blockFinders`) over a load of the found blocks.
use p2pool_salvium_observer.Prelude.{
  ℕ, ◌≡◌, ◌⊎◌, inl, inr, refl, ◌∙◌, Option, none, some, List, [], ◌∷◌, ◌==◌, All, Bool-cases,
  Option-cases, ==_iff,
}
use p2pool_salvium_observer.Pplns.{ShareMap}
use p2pool_salvium_observer.Daemon.{
  Text, FoundBlock, lookup_height, insert_height, lookup-insert_same, lookup-insert_other,
}
use p2pool_salvium_observer.Daemon.Entries.{
  parse_entry, scan_int, scan_uint, scan_word, scan_four, scan_five,
}
use p2pool_salvium_observer.Daemon.Finder.{Finders, best_match, look_up_finder, load_entries}

-- Every finder of the first map is that of the second.
abbrev pub IsKept : Finders → Finders → Type 0
IsKept before after =
    (height : ℕ) (finder : Text)
    → lookup_height height before ≡ some finder
    → lookup_height height after ≡ some finder

-- A block has no finder, or the one of its height.
abbrev pub IsNamed : Finders → FoundBlock → Type 0
IsNamed finders fb = (fb.finder ≡ []) ⊎ (lookup_height fb.height finders ≡ some fb.finder)

abbrev finder_of : Option (FoundBlock × Text) → Text
finder_of none = []
finder_of (some r) = r.0.finder

scan_four-finder : (s : Text) → finder_of (scan_four s) ≡ []
unfolding scan_four
scan_four-finder s = elim (Option-cases (scan_int s)) [
  | inl fails ↦ rw fails refl
  | inr (a, e) ↦ elim (Option-cases (scan_uint a.1)) [
    | inl fails ↦ rw (e, fails) refl
    | inr (b, f) ↦ elim (Option-cases (scan_word b.1)) [
      | inl fails ↦ rw (e, f, fails) refl
      | inr (c, g) ↦ elim (Option-cases (scan_word c.1)) [
        | inl fails ↦ rw (e, f, g, fails) refl
        | inr (d, h) ↦ rw (e, f, g, h) refl
      ]
    ]
  ]
]

-- A block without a finder, or none.
abbrev IsUnnamed : Option FoundBlock → Type 0
IsUnnamed none = Unit {0}
IsUnnamed (some fb) = fb.finder ≡ []

scan_five-IsUnnamed : (s : Text) → IsUnnamed (scan_five s)
unfolding scan_five
scan_five-IsUnnamed s = elim (Option-cases (scan_four s)) [
  | inl fails ↦ rw fails tt
  | inr (a, e) ↦ elim (Option-cases (scan_word a.1)) [
    | inl fails ↦ rw (e, fails) tt
    | inr (b, f) ↦ rw (e, f) (rw e at (scan_four-finder s))
  ]
]

parse_entry-IsUnnamed : (s : Text) → IsUnnamed (parse_entry s)
unfolding parse_entry
parse_entry-IsUnnamed s = elim (Option-cases (scan_five s)) [
  | inr (fb, e) ↦ rw e (rw e at (scan_five-IsUnnamed s))
  | inl fails ↦ elim (Option-cases (scan_four s)) [
    | inl none_too ↦ rw (fails, none_too) tt
    | inr (r, e) ↦ rw (fails, e) (rw e at (scan_four-finder s))
  ]
]

insert-IsKept :
    (k : ℕ) (v : Text) (m : Finders) → lookup_height k m ≡ none → IsKept m (insert_height k v m)
insert-IsKept k v m unknown j w e = elim (Bool-cases (k == j)) [
  | inl same ↦ absurd (let eq : k ≡ j = (==_iff k j).0 same in cc)
  | inr other ↦ lookup-insert_other k j v m other ∙ e
]

module _ (keccak256 : List ℕ → List ℕ) (shares : ShareMap) where
  look_up_finder_lem :
      (fb : FoundBlock) (finders : Finders)
      → fb.finder ≡ []
      → IsKept finders (look_up_finder keccak256 shares fb finders).1
        × IsNamed
            (look_up_finder keccak256 shares fb finders).1
            (look_up_finder keccak256 shares fb finders).0
  unfolding look_up_finder
  look_up_finder_lem fb finders unnamed = elim (Option-cases (lookup_height fb.height finders)) [
    | inr (finder, cached) ↦ rw (look_up_finder, cached) (λ height f e. e, inr cached)
    | inl unknown ↦ elim (Option-cases (best_match shares fb)) [
      | inl no_match ↦ rw (look_up_finder, unknown, no_match) (λ height f e. e, inl unnamed)
      | inr (share, found) ↦
          rw (look_up_finder, unknown, found)
            (
              insert-IsKept fb.height _ finders unknown,
              inr (lookup-insert_same fb.height fb.height _ finders ((==_iff _ _).1 refl)),
            )
    ]
  ]

  IsNamed-keep :
      (before after : Finders) (fb : FoundBlock)
      → IsKept before after
      → IsNamed before fb
      → IsNamed after fb
  IsNamed-keep before after fb kept (inl unnamed) = inl unnamed
  IsNamed-keep before after fb kept (inr cached) = inr (kept fb.height fb.finder cached)

  -- A load of the found blocks keeps every finder that was cached before, and each block of it has
  -- the finder that the cache then has for its height, or none.
  pub load_entries-IsKept :
      (entries : List Text) (finders : Finders)
      → IsKept finders (load_entries keccak256 shares entries finders).1
        × All
            (IsNamed (load_entries keccak256 shares entries finders).1)
            (load_entries keccak256 shares entries finders).0
  unfolding load_entries
  load_entries-IsKept [] finders = (λ height f e. e, tt)
  load_entries-IsKept (entry ∷ entries) finders = elim (Option-cases (parse_entry entry)) [
    | inl skipped ↦ rw (load_entries, skipped) (load_entries-IsKept entries finders)
    | inr (fb, parsed) ↦
        let (kept, named) =
          look_up_finder_lem fb finders (rw parsed at (parse_entry-IsUnnamed entry)) in
        let after = (look_up_finder keccak256 shares fb finders).1 in
        let (kept', rest) = load_entries-IsKept entries after in
        rw (load_entries, parsed)
          (
            λ height f e. kept' height f (kept height f e),
            (IsNamed-keep after _ (look_up_finder keccak256 shares fb finders).0 kept' named, rest),
          )
  ]
