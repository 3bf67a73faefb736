-- ===== src/Auth.antt =====
-- auth/jwt_bearer.py: the bearer token of the `Authorization` header, and what PyJWT makes of it.
pub mod Whitespace
pub mod Bearer
use Prim.Native.Char.{Char, code}
use Prim.Native.String
use transcribe_service.Prelude.{
  ℕ, ◌+◌, String, Bool, true, false, not, ◌&&◌, ◌||◌, Option, none, some, ◌==◌, eqb, leb,
  if◌then◌else◌,
}
use transcribe_service.Prelude.Exec.{Result, ok, err, authentication_error}
use transcribe_service.Json.{Json, text, Fields, get}
use Whitespace.{strip}

-- A letter of ASCII in lower case; the other characters of a header never become one of `bearer`.
abbrev lower_code : ℕ → ℕ
lower_code n = if leb 65 n && leb n 90 then n + 32 else n

-- `s.lower() == name`, for a `name` of lower-case ASCII letters
unfoldable pub lower_is : String → String → Bool
lower_is String.[] String.[] = true
lower_is (String.◌∷◌ c s) (String.◌∷◌ d name) =
    eqb (lower_code (code c)) (code d) && lower_is s name
lower_is s name = false

abbrev is_space_char : Char → Bool
is_space_char c = eqb (code c) 32

-- `s.partition(" ")`, without the separator
unfoldable pub partition : String → String × String
partition String.[] = ("", "")
partition (String.◌∷◌ c s) =
    let (before, after) = partition s in
    if is_space_char c then ("", s) else (String.◌∷◌ c before, after)

unfoldable pub extract_bearer_token : Option String → Result String
unfolding strip lower_is partition
extract_bearer_token none =
    err (authentication_error "Authorization header with Bearer token is required")
extract_bearer_token (some header) =
    if strip header == ""
    then err (authentication_error "Authorization header with Bearer token is required")
    else (let (scheme, token) = partition (strip header) in
        if not (lower_is scheme "bearer") || (strip token == "")
        then err (authentication_error "Authorization header must use the Bearer scheme")
        else ok (strip token))

-- What `jwt.decode` answers for a token: its claims, or one of the two exceptions that are caught.
pub data Decoded : Type 0 where
  claims : Fields → Decoded
  expired_signature_error invalid_token_error : Decoded

pub record AuthPrincipal : Type 0 where
  pub subject : Option String
  pub claims : Fields

abbrev subject_of : Option Json → Option String
subject_of (some (text s)) = some s
subject_of v = none

abbrev pub principal : Decoded → Result AuthPrincipal
principal (claims fields) = ok (record { subject = subject_of (get "sub" fields); claims = fields })
principal expired_signature_error = err (authentication_error "Bearer token has expired")
principal invalid_token_error = err (authentication_error "Bearer token is invalid")

abbrev of_token : (String → Decoded) → Result String → Result AuthPrincipal
of_token decode (ok token) = principal (decode token)
of_token decode (err e) = err e

-- `decode` is `jwt.decode` with the backend's key, algorithm and options.
unfoldable pub authenticate : (String → Decoded) → Option String → Result AuthPrincipal
unfolding extract_bearer_token
authenticate decode authorization_header =
    of_token decode (extract_bearer_token authorization_header)
