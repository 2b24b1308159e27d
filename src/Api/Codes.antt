-- ===== src/Api/Codes.antt =====
-- Go strings as the lists of their bytes: literals, and tests of bytes.
use Prim.Native.Char.{code}
use Prim.Native.String.{String}
use p2pool_salvium_observer.Prelude.{ℕ, Bool, ◌&&◌, ◌||◌, List, [], ◌∷◌, leb, ◌==◌}

-- The bytes of an ASCII literal.
abbrev pub codes : String → List ℕ
codes String.[] = []
codes (String.◌∷◌ c s) = code c ∷ codes s

-- A word character of a regular expression, `\w`.
unfoldable pub is_word : ℕ → Bool
is_word c =
    (leb b'0' c && leb c b'9')
    || ((leb b'A' c && leb c b'Z') || ((leb b'a' c && leb c b'z') || c == b'_'))

-- `[1-9A-HJ-NP-Za-km-z]`
unfoldable pub is_base58 : ℕ → Bool
is_base58 c =
    (leb b'1' c && leb c b'9')
    || ((leb b'A' c && leb c b'H')
        || ((leb b'J' c && leb c b'N')
            || ((leb b'P' c && leb c b'Z')
                || ((leb b'a' c && leb c b'k') || (leb b'm' c && leb c b'z')))))
