-- ===== src/Response/Keys.antt =====
-- The canonical form of a header's key, textproto.CanonicalMIMEHeaderKey, under which Header().Set of
-- net/http stores a value.
use gin_t.Common.{
  ℕ, ◌+◌, ◌-◌, ◌≡◌, refl, Bool, true, false, not, ◌&&◌, ◌||◌, ◌==◌, [], ◌∷◌, leb, if◌then◌else◌,
}
use gin_t.Text.{Bytes, codes}

abbrev is_lower : ℕ → Bool
is_lower c = leb b'a' c && leb c b'z'

abbrev is_upper : ℕ → Bool
is_upper c = leb b'A' c && leb c b'Z'

abbrev occurs : ℕ → Bytes → Bool
occurs c [] = false
occurs c (d ∷ s) = c == d || occurs c s

-- a byte of a token
abbrev is_token : ℕ → Bool
is_token c =
    is_lower c || (is_upper c || (leb b'0' c && leb c b'9' || occurs c (codes "!#$%&'*+-.^_`|~")))

abbrev all_tokens : Bytes → Bool
all_tokens [] = true
all_tokens (c ∷ s) = is_token c && all_tokens s

-- A letter at the beginning and behind a dash is a capital, any other is small.
abbrev capitals : Bool → Bytes → Bytes
capitals upper [] = []
capitals upper (c ∷ s) =
    (if upper && is_lower c then c - 32 else if not upper && is_upper c then c + 32 else c)
    ∷ capitals (c == b'-') s

-- A key with a byte that no token has stays as it is.
abbrev pub canonical_key : Bytes → Bytes
canonical_key key = if all_tokens key then capitals true key else key

canonical : canonical_key (codes "x-request-ID") ≡ codes "X-Request-Id"
canonical = refl

with_space : canonical_key (codes "x y") ≡ codes "x y"
with_space = refl
