-- ===== src/Cache/Keyed.antt =====
-- `LoadAllShares` (p2pool/cache.go): what its map finds under an id is a share with that id.
use p2pool_salvium_observer.Prelude.{
  ℕ, ◌≡◌, sym, ap, ◌∙◌, some, List, [], ◌∷◌, inl, inr, Bool-cases,
}
use p2pool_salvium_observer.Outcome.{Result, ok, err, panic, ◌>>=◌}
use p2pool_salvium_observer.Share.{Hash, Share, bytes_eq}
use p2pool_salvium_observer.Share.Keys.{
  lookup_hash, insert_hash, lookup-insert_hash, bytes_eq_sound,
}
use p2pool_salvium_observer.Pplns.{ShareMap}
use p2pool_salvium_observer.Parser.{parse_cache_entry}
use p2pool_salvium_observer.Cache.{keep_share, load_from, load_all_shares}

abbrev pub IsKeyed : ShareMap → Type 0
IsKeyed shares = (id : Hash) (s : Share) → lookup_hash id shares ≡ some s → s.sidechain_id ≡ id

insert-IsKeyed :
    (share : Share) (shares : ShareMap)
    → IsKeyed shares
    → IsKeyed (insert_hash share.sidechain_id share shares)
insert-IsKeyed share shares keyed id s found =
    let look = lookup-insert_hash share.sidechain_id id share shares in
    elim (Bool-cases (bytes_eq share.sidechain_id id)) [
      | inl same ↦
          let is : share ≡ s = cc (rw same at look) in
          ap (λ x. x.sidechain_id) (sym is) ∙ bytes_eq_sound share.sidechain_id id same
      | inr differ ↦ keyed id s (sym (rw differ at look) ∙ found)
    ]

keep_share-IsKeyed :
    (r : Result Share) (shares loaded : ShareMap) (rest : ShareMap → Result ShareMap)
    → ((m : ShareMap) → IsKeyed m → rest m ≡ ok loaded → IsKeyed loaded)
    → IsKeyed shares
    → (keep_share shares r >>= rest) ≡ ok loaded
    → IsKeyed loaded
keep_share-IsKeyed (ok share) shares loaded rest ih keyed h =
    ih _ (insert-IsKeyed share shares keyed) h
keep_share-IsKeyed (err e) shares loaded rest ih keyed h = ih shares keyed h
keep_share-IsKeyed panic shares loaded rest ih keyed h = cc

load_from-IsKeyed :
    (values : List (List ℕ)) (shares loaded : ShareMap)
    → IsKeyed shares
    → load_from values shares ≡ ok loaded
    → IsKeyed loaded
unfolding load_from
load_from-IsKeyed [] shares loaded keyed e = let is : shares ≡ loaded = cc in rw (← is) keyed
load_from-IsKeyed (value ∷ values) shares loaded keyed e =
    keep_share-IsKeyed (parse_cache_entry value) shares loaded (load_from values)
      (λ m k h. load_from-IsKeyed values m loaded k h) keyed e

-- A share that is found in the map of LoadAllShares is one with the id that was asked for, whatever
-- the entries of the cache are.
pub load_all_shares-IsKeyed :
    (values : List (List ℕ)) (loaded : ShareMap) (id : Hash) (s : Share)
    → load_all_shares values ≡ ok loaded
    → lookup_hash id loaded ≡ some s
    → s.sidechain_id ≡ id
unfolding load_all_shares
load_all_shares-IsKeyed values loaded id s e found =
    load_from-IsKeyed values [] loaded (λ _ _ none_found. cc) e id s found
