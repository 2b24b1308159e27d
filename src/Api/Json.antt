-- ===== src/Api/Json.antt =====
-- The values that `encoding/json` decodes into an `interface{}`, and the typed maps and slices that
-- the handlers of cmd/api/main.go decode into. `F` is float64.
use p2pool_salvium_observer.Prelude.{Bool, Option, none, some, List, [], ◌∷◌}
use p2pool_salvium_observer.Word.Int.{ℤ}
use p2pool_salvium_observer.Share.Keys.{lookup_hash}
use p2pool_salvium_observer.Daemon.{Text}

mutual
  pub data Json (F : Type 0) : Type 0 where
    null : Json F
    boolean : Bool → Json F
    float : F → Json F
    integer : ℤ → Json F
    text : Text → Json F
    array : Items F → Json F
    object : Fields F → Json F

  pub data Items (F : Type 0) : Type 0 where
    nil : Items F
    cons : Json F → Items F → Items F

  pub data Fields (F : Type 0) : Type 0 where
    end : Fields F
    field : Text → Json F → Fields F → Fields F

module _ {F : Type 0} where
  abbrev pub elements : Items F → List (Json F)
  elements nil = []
  elements (cons v vs) = v ∷ elements vs

  abbrev pub items : List (Json F) → Items F
  items [] = nil
  items (v ∷ vs) = cons v (items vs)

  abbrev pub entries : Fields F → List (Text × Json F)
  entries end = []
  entries (field k v fs) = (k, v) ∷ entries fs

  abbrev pub fields : List (Text × Json F) → Fields F
  fields [] = end
  fields ((k, v) ∷ m) = field k v (fields m)

-- A `map[string]interface{}`, and one that may be nil.
abbrev pub Map : Type 0 → Type 0
Map F = List (Text × Json F)

abbrev pub NilMap : Type 0 → Type 0
NilMap F = Option (Map F)

-- The results of a list, of a value that may fail, and of the values of a map.
abbrev pub both : {A : Type 0} → Option A → Option (List A) → Option (List A)
both none rest = none
both (some a) none = none
both (some a) (some rest) = some (a ∷ rest)

abbrev pub present : {A : Type 0} → Option A → Option (Option A)
present none = none
present (some a) = some (some a)

abbrev pub both_fields :
    {A : Type 0} → Text → Option A → Option (List (Text × A)) → Option (List (Text × A))
both_fields k none rest = none
both_fields k (some a) none = none
both_fields k (some a) (some rest) = some ((k, a) ∷ rest)

module _ {F : Type 0} where
  -- `m[key]` as an `interface{}`; a nil map and a missing key give nil.
  unfoldable pub at : Text → NilMap F → Json F
  at key none = null
  at key (some m) = elim (lookup_hash key m) [ none ↦ null | some v ↦ v ]

  -- How a map, a slice of values and a slice of strings are marshalled; nil is null.
  abbrev pub of_map : NilMap F → Json F
  of_map none = null
  of_map (some m) = object (fields m)

  abbrev pub of_slice : Option (List (Json F)) → Json F
  of_slice none = null
  of_slice (some vs) = array (items vs)

  abbrev pub of_maps : List (Map F) → List (Json F)
  of_maps [] = []
  of_maps (m ∷ ms) = object (fields m) ∷ of_maps ms

  abbrev pub of_texts : List Text → List (Json F)
  of_texts [] = []
  of_texts (t ∷ ts) = text t ∷ of_texts ts

  abbrev pub of_strings : Option (List Text) → Json F
  of_strings none = null
  of_strings (some ts) = array (items (of_texts ts))

  -- `json.Unmarshal` into a variable of the type, from the decoded value: `none` is an error. A null
  -- leaves a map or a slice nil and a string empty.
  unfoldable pub into_map : Json F → Option (NilMap F)
  into_map null = some none
  into_map (object fs) = some (some (entries fs))
  into_map _ = none

  unfoldable pub into_slice : Json F → Option (Option (List (Json F)))
  into_slice null = some none
  into_slice (array vs) = some (some (elements vs))
  into_slice _ = none

  unfoldable pub into_each : {A : Type 0} → (Json F → Option A) → Items F → Option (List A)
  into_each into nil = some []
  into_each into (cons v vs) = both (into v) (into_each into vs)

  unfoldable pub into_string : Json F → Option Text
  into_string null = some []
  into_string (text t) = some t
  into_string _ = none

  unfoldable pub into_strings : Json F → Option (Option (List Text))
  unfolding into_each into_string
  into_strings null = some none
  into_strings (array vs) = present (into_each into_string vs)
  into_strings _ = none

  unfoldable pub into_maps : Json F → Option (Option (List (NilMap F)))
  unfolding into_each into_map
  into_maps null = some none
  into_maps (array vs) = present (into_each into_map vs)
  into_maps _ = none

  unfoldable pub into_each_field :
      {A : Type 0} → (Json F → Option A) → Fields F → Option (List (Text × A))
  into_each_field into end = some []
  into_each_field into (field k v fs) = both_fields k (into v) (into_each_field into fs)

  -- `map[string][]string`
  unfoldable pub into_snapshots : Json F → Option (List (Text × Option (List Text)))
  unfolding into_each_field into_strings
  into_snapshots null = some []
  into_snapshots (object fs) = into_each_field into_strings fs
  into_snapshots _ = none

abbrev pub list_of : {A : Type 0} → Option (List A) → List A
list_of none = []
list_of (some xs) = xs
