-- ===== src/Accounts.antt =====
-- `app/core/security.py`, `app/api/deps.py`, `app/api/v1/endpoints/auth.py` and
-- `app/schemas/auth.py`: the two kinds of tokens, login, refresh, and the user of a request.
-- `jwt`, `argon2` and the methods of `str` are a parameter, `Crypto`.
pub mod Sessions
pub mod Kinds
use mathlib.Core.Option
use news2reel.Base.{
  ℤ, pos, negsuc, ℕ, ◌+◌, ◌*◌, ◌/◌, ◌≡◌, ◌≤◌, ◌<◌, Bool, true, false, not, ◌&&◌, Option, none, some,
  List, [], ◌∷◌, if◌then◌else◌, Text, codes, text_eq, leb, length, find?, or_else,
}
use news2reel.Core.Config.{Settings}
use news2reel.Model.{Instant, seconds, User}
use news2reel.Store.{Db, get_user_row}

-- `TokenKind`, as the `type` claim spells it
pub data TokenKind : Type 0 where
  access refresh_kind : TokenKind

abbrev pub kind_text : TokenKind → Text
kind_text access = codes "access"
kind_text refresh_kind = codes "refresh"

-- The claims of a token; `iat` and `exp` are whole seconds.
pub record Claims : Type 0 where
  pub sub : Text
  pub kind : Text
  pub iat : ℕ
  pub exp : ℕ
  pub jti : Text

-- `jwt.encode` and `jwt.decode` with the secret, where `none` is a `PyJWTError`; `str` and `int`
-- of a subject, where `none` is a `ValueError`; `_hasher.verify`, where `none` is one of the two
-- errors that are caught; the dummy hash; `value.strip().lower()`.
pub record Crypto : Type 0 where
  pub encode : Claims → Text → Text
  pub decode : Text → Text → Instant → Option Claims
  pub decimal : ℕ → Text
  pub int_of : Text → Option ℤ
  pub verify : Text → Text → Option Bool
  pub dummy_hash : Text
  pub normalized : Text → Text

-- What the documentation of `jwt` and of `int` says: a token decodes to its claims from its `iat`
-- on until its `exp`, and is refused from then on; the decimals of a number spell it.
pub record CryptoLaws (crypto : Crypto) : Type 0 where
  pub decode_encode :
      (claims : Claims) (secret : Text) (now : Instant)
      → seconds claims.iat ≤ now
      → now < seconds claims.exp
      → crypto.decode (crypto.encode claims secret) secret now ≡ some claims
  pub decode_expired :
      (claims : Claims) (secret : Text) (now : Instant)
      → seconds claims.exp ≤ now
      → crypto.decode (crypto.encode claims secret) secret now ≡ none
  pub int_of_decimal : (n : ℕ) → crypto.int_of (crypto.decimal n) ≡ some (pos n)

pub record Cookie : Type 0 where
  pub name : Text
  pub value : Text
  pub max_age : ℕ
  pub path : Text
  pub httponly : Bool
  pub samesite : Text
  pub secure : Bool

abbrev pub access_cookie : Text
access_cookie = codes "feedcast_access"

abbrev pub refresh_cookie : Text
refresh_cookie = codes "feedcast_refresh"

-- The whole seconds of an instant, which `jwt` keeps of a datetime.
abbrev pub whole_seconds : Instant → ℕ
whole_seconds now = now / 1000000

-- `LoginRequest` after its validation
pub record LoginRequest : Type 0 where
  pub email : Text
  pub password : Text

-- What `current_user` ends with: the user, or a 401 with its detail.
pub data Caller : Type 0 where
  known : User → Caller
  refused : Text → Caller

-- What login and refresh end with: the user and the cookies set, or a 401 with its detail.
pub data Session : Type 0 where
  opened : User → List Cookie → Session
  unauthorized : Text → Session

-- the details of the three kinds of 401
abbrev pub not_logged_in : Text
not_logged_in = codes "not logged in"

abbrev pub session_expired : Text
session_expired = codes "session expired"

abbrev pub wrong_credentials : Text
wrong_credentials = codes "wrong email or password"

module _ (crypto : Crypto) where
  -- An error is false.
  unfoldable pub verify_password : Text → Text → Bool
  verify_password password_hash password = or_else (crypto.verify password_hash password) false

  -- `none` is a 422. The lengths are checked before the email is normalized.
  unfoldable pub login_request : Text → Text → Option LoginRequest
  login_request email password =
      if leb 1 (length email)
        && (leb (length email) 320 && (leb 1 (length password) && leb (length password) 1024))
      then some (record { email = crypto.normalized email; password = password })
      else none

  module _ {F : Type 0} (settings : Settings F) where
    -- `jti` is what `secrets` returns; `ttl` is in seconds.
    abbrev pub claims_of : Instant → Text → ℕ → TokenKind → ℕ → Claims
    claims_of now jti user_id kind ttl = record {
      sub = crypto.decimal user_id;
      kind = kind_text kind;
      iat = whole_seconds now;
      exp = whole_seconds (now + seconds ttl);
      jti = jti;
    }

    unfoldable pub create_token : Instant → Text → ℕ → TokenKind → ℕ → Text
    create_token now jti user_id kind ttl =
        crypto.encode (claims_of now jti user_id kind ttl) settings.jwt_secret

    -- `none` is `InvalidTokenError`.
    unfoldable pub decode_token : Instant → Text → TokenKind → Option ℤ
    decode_token now token kind = elim (crypto.decode token settings.jwt_secret now) [
      | none ↦ none
      | some claims ↦
          if text_eq claims.kind (kind_text kind) then crypto.int_of claims.sub else none
    ]

    -- the lifetimes in seconds
    abbrev pub access_ttl : ℕ
    access_ttl = settings.access_token_minutes * 60

    abbrev pub refresh_ttl : ℕ
    refresh_ttl = settings.refresh_token_days * 86400

    -- `_set_session`; the two tokens have a `jti` of their own.
    unfoldable pub set_session : Instant → Text × Text → User → List Cookie
    set_session now jtis user =
        record {
          name = access_cookie;
          value = create_token now jtis.0 user.id access access_ttl;
          max_age = access_ttl;
          path = codes "/";
          httponly = true;
          samesite = codes "lax";
          secure = settings.cookie_secure;
        }
        ∷ record {
          name = refresh_cookie;
          value = create_token now jtis.1 user.id refresh_kind refresh_ttl;
          max_age = refresh_ttl;
          path = codes "/api/v1/auth";
          httponly = true;
          samesite = codes "lax";
          secure = settings.cookie_secure;
        }
        ∷ []

    module _ (db : Db F) (now : Instant) where
      -- `db.get(User, id)`; no row has a negative id.
      abbrev pub get_user : ℤ → Option User
      get_user (pos id) = get_user_row db id
      get_user (negsuc id) = none

      -- The user of a cookie with a token of this kind, or the detail of the 401.
      unfoldable pub user_of : Option Text → TokenKind → Caller
      user_of none kind = refused not_logged_in
      user_of (some token) kind = elim (decode_token now token kind) [
        | none ↦ refused session_expired
        | some id ↦ elim (get_user id) [ none ↦ refused not_logged_in | some user ↦ known user ]
      ]

      -- The argument is the access cookie of the request.
      unfoldable pub current_user : Option Text → Caller
      current_user cookie = user_of cookie access

      -- The argument is the refresh cookie of the request.
      unfoldable pub refresh : Text × Text → Option Text → Session
      refresh jtis cookie = elim (user_of cookie refresh_kind) [
        | known user ↦ opened user (set_session now jtis user)
        | refused detail ↦ unauthorized detail
      ]

      -- `db.scalar(select(User).where(User.email == email))`
      unfoldable pub user_by_email : Text → Option User
      user_by_email email = find? (λ user. text_eq user.email email) db.users

      -- `user.password_hash if user else DUMMY_HASH`
      abbrev pub hash_of : Option User → Text
      hash_of none = crypto.dummy_hash
      hash_of (some user) = user.password_hash

      abbrev pub session_of : Text × Text → Bool → Option User → Session
      session_of jtis valid none = unauthorized wrong_credentials
      session_of jtis valid (some user) =
          if valid then opened user (set_session now jtis user) else unauthorized wrong_credentials

      unfoldable pub login : Text × Text → LoginRequest → Session
      login jtis request =
          let user = user_by_email request.email in
          let valid = verify_password (hash_of user) request.password in session_of jtis valid user

-- The value that a response sets for a cookie.
unfoldable pub cookie_value : Text → List Cookie → Option Text
cookie_value name cookies = Option.map (λ c. c.value) (find? (λ c. text_eq c.name name) cookies)
