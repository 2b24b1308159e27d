-- ===== src/Tests/Codecs.antt =====
-- A serialisation for the tests, in the place of encoding/json: each value stands in front of a
-- text and is read back from there.
use p2pool_salvium_observer.Prelude.{
  ℕ, zero, suc, ◌≡◌, refl, ap, ◌∙◌, Bool, true, false, Option, none, some, List, [], ◌∷◌, ◌++◌,
  length,
}
use mathlib.Core.List.{append-nil}
use p2pool_salvium_observer.Word.Int.{ℤ, pos, negsuc}
use p2pool_salvium_observer.Daemon.{Text, Payout, FoundBlock, lookup_height}
use p2pool_salvium_observer.Daemon.Persist.{Codec, MapCodec, Codecs}
use p2pool_salvium_observer.Daemon.Persist.Restart.{IsCodec}
use p2pool_salvium_observer.Daemon.Persist.Calculated.{IsMapCodec, AreCodecs}

pub record Packing (A : Type 0) : Type 0 where
  pub put : A → Text → Text
  pub pick : Text → Option (A × Text)
  pub pick-put : (a : A) (t : Text) → pick (put a t) ≡ some (a, t)

abbrev pick_number : Text → Option (ℕ × Text)
pick_number [] = none
pick_number (n ∷ t) = some (n, t)

abbrev pub number : Packing ℕ
number = record { put = λ n t. n ∷ t; pick = pick_number; pick-put = λ n t. refl }

module _ {A B : Type 0} where
  abbrev mapped : (A → B) → Option (A × Text) → Option (B × Text)
  mapped f none = none
  mapped f (some (a, t)) = some (f a, t)

  abbrev pub along : (f : A → B) (g : B → A) → ((b : B) → f (g b) ≡ b) → Packing A → Packing B
  along f g back p = record {
    put = λ b t. p.put (g b) t;
    pick = λ t. mapped f (p.pick t);
    pick-put = λ b t. ap (mapped f) (p.pick-put (g b) t) ∙ ap (λ c. some (c, t)) (back b);
  }

  abbrev pick_second :
      (B → Text → Text) → (Text → Option (B × Text)) → Option (A × Text) → Option ((A × B) × Text)
  pick_second put pick none = none
  pick_second put pick (some (a, t)) = elim (pick t) [
    | none ↦ none
    | some (b, t') ↦ some ((a, b), t')
  ]

  abbrev pub both : Packing A → Packing B → Packing (A × B)
  both p q = record {
    put = λ ab t. p.put ab.0 (q.put ab.1 t);
    pick = λ t. pick_second q.put q.pick (p.pick t);
    pick-put = λ ab t.
        ap (pick_second q.put q.pick) (p.pick-put ab.0 (q.put ab.1 t))
        ∙ rw (pick_second, q.pick-put ab.1 t) refl;
  }

module _ {A : Type 0} (p : Packing A) where
  abbrev put_all : List A → Text → Text
  put_all [] t = t
  put_all (a ∷ as') t = p.put a (put_all as' t)

  abbrev pick_next : (Text → Option (List A × Text)) → Option (A × Text) → Option (List A × Text)
  pick_next rest none = none
  pick_next rest (some (a, t)) = elim (rest t) [ none ↦ none | some (as', t') ↦ some (a ∷ as', t') ]

  abbrev pick_all : ℕ → Text → Option (List A × Text)
  pick_all zero t = some ([], t)
  pick_all (suc n) t = pick_next (pick_all n) (p.pick t)

  abbrev pick_counted : Text → Option (List A × Text)
  pick_counted [] = none
  pick_counted (n ∷ t) = pick_all n t

  pub pick-put_all :
      (as' : List A) (t : Text) → pick_all (length as') (put_all as' t) ≡ some (as', t)
  pick-put_all [] t = refl
  pick-put_all (a ∷ as') t =
      ap (pick_next (pick_all (length as'))) (p.pick-put a (put_all as' t))
      ∙ rw (pick_next, pick-put_all as' t) refl

  abbrev pub many : Packing (List A)
  many = record {
    put = λ as' t. length as' ∷ put_all as' t;
    pick = pick_counted;
    pick-put = pick-put_all;
  }

abbrev to_int : ℕ × ℕ → ℤ
to_int (zero, n) = pos n
to_int (suc k, n) = negsuc n

abbrev of_int : ℤ → ℕ × ℕ
of_int (pos n) = (0, n)
of_int (negsuc n) = (1, n)

pub to-of_int : (i : ℤ) → to_int (of_int i) ≡ i
to-of_int (pos n) = refl
to-of_int (negsuc n) = refl

abbrev to_bool : ℕ → Bool
to_bool zero = false
to_bool (suc n) = true

abbrev of_bool : Bool → ℕ
of_bool true = 1
of_bool false = 0

pub to-of_bool : (b : Bool) → to_bool (of_bool b) ≡ b
to-of_bool true = refl
to-of_bool false = refl

abbrev packed_int : Packing ℤ
packed_int = along to_int of_int to-of_int (both number number)

abbrev packed_payout : Packing Payout
packed_payout =
    along
      (λ f. record {
        block_height = f.0;
        block_hash = f.1.0;
        amount = f.1.1.0;
        timestamp = f.1.1.1;
      })
      (λ p. (p.block_height, (p.block_hash, (p.amount, p.timestamp)))) (λ p. refl)
      (both number (both (many number) (both number packed_int)))

abbrev packed_block : Packing FoundBlock
packed_block =
    along
      (λ f. record {
        timestamp = f.0;
        height = f.1.0;
        hash = f.1.1.0;
        difficulty = f.1.1.1.0;
        total_hashes = f.1.1.1.1.0;
        reward = f.1.1.1.1.1.0;
        finder = f.1.1.1.1.1.1;
      })
      (λ b.
        (b.timestamp, (b.height, (b.hash, (b.difficulty, (b.total_hashes, (b.reward, b.finder)))))))
      (λ b. refl)
      (both packed_int (
        both number (
          both (many number)
            (both (many number) (both (many number) (both number (many number)))))))

abbrev decoded : {A : Type 0} → Option (A × Text) → Option A
decoded none = none
decoded (some (a, t)) = some a

abbrev pub codec_of : {A : Type 0} → Packing A → Codec A
codec_of p = record { encode = λ a. p.put a []; decode = λ t. decoded (p.pick t) }

codec_of-IsCodec : {A : Type 0} (p : Packing A) → IsCodec (codec_of p)
codec_of-IsCodec p a = ap decoded (p.pick-put a [])

abbrev into : {A : Type 0} → Option (List A × Text) → List A → List A
into none old = old
into (some (m, t)) old = m ++ old

-- The keys of the text come in front of those of the old map, and are found first.
abbrev pub map_codec_of : {V : Type 0} → Packing V → MapCodec (List (ℕ × V))
map_codec_of p = record {
  marshal = λ m. (many (both number p)).put m [];
  unmarshal_into = λ t old. into ((many (both number p)).pick t) old;
}

map_codec_of-IsMapCodec : {V : Type 0} (p : Packing V) → IsMapCodec (map_codec_of p)
map_codec_of-IsMapCodec p m height =
    ap (λ r. lookup_height height (into r [])) ((many (both number p)).pick-put m [])
    ∙ ap (lookup_height height) (append-nil m)

abbrev pub codecs : Codecs
codecs = record {
  payouts = codec_of (many packed_payout);
  processed = map_codec_of (along to_bool of_bool to-of_bool number);
  snapshots = map_codec_of (many (many number));
  found_blocks = codec_of (many packed_block);
}

pub codecs-AreCodecs : AreCodecs codecs
codecs-AreCodecs = record {
  payouts = codec_of-IsCodec (many packed_payout);
  processed = map_codec_of-IsMapCodec (along to_bool of_bool to-of_bool number);
  snapshots = map_codec_of-IsMapCodec (many (many number));
}
