-- ===== src/State/Principal.antt =====
-- internal/state/principal.go: which account names the daemon accepts.
pub mod Grammar
use nokkud.Base.{
  ltb, leb, length, Bytes, ℕ, Bool, true, false, not, [], ◌≡◌, ◌&&◌, ◌||◌, ◌∷◌, ◌==◌, nat_eq,
  bytes_eq,
}

-- `[A-Za-z_]`.
pub start_byte : ℕ → Bool
start_byte c = (leb b'A' c && leb c b'Z') || (leb b'a' c && leb c b'z') || c == b'_'

-- `[A-Za-z0-9._-]`.
pub name_byte : ℕ → Bool
unfolding start_byte
name_byte c = start_byte c || (leb b'0' c && leb c b'9') || c == b'.' || c == b'-'

-- `[A-Za-z0-9._-]*\$?$`.
match_tail : Bytes → Bool
unfolding name_byte
match_tail [] = true
match_tail (c ∷ []) = name_byte c || c == b'$'
match_tail (c ∷ d ∷ cs) = name_byte c && match_tail (d ∷ cs)

-- `posixUserRE`.
match_user : Bytes → Bool
unfolding start_byte match_tail
match_user [] = false
match_user (c ∷ cs) = start_byte c && match_tail cs

-- `validatePrincipal`, true where it returns no error.
unfoldable pub validate_principal : Bytes → Bool
unfolding match_user
validate_principal principal = not (ltb 32 (length principal) || not (match_user principal))

abbrev pub IsValidName : Bytes → Type 0
IsValidName name = validate_principal name ≡ true
