-- ===== src/Accounts/Sessions.antt =====
-- Whom a login lets in, and what its cookies are good for.
use mathlib.Core.Path.{subst}
use news2reel.Base.{
  pos, ℕ, ◌+◌, ◌≤◌, ◌<◌, ◌≡◌, refl, ap, sym, ◌∙◌, Bool, true, false, Option, none, some, List,
  arith, Text, text_eq, text_eq_refl, find?,
}
use news2reel.Core.Config.{Settings}
use news2reel.Model.{Instant, seconds, User}
use news2reel.Store.{Db, get_user_row}
use news2reel.Accounts.{
  Crypto, CryptoLaws, TokenKind, access, refresh_kind, kind_text, whole_seconds, LoginRequest,
  Caller, known, refused, Session, Cookie, opened, unauthorized, not_logged_in, session_expired,
  wrong_credentials, access_cookie, refresh_cookie, access_ttl, refresh_ttl, verify_password,
  claims_of, create_token, decode_token, set_session, user_of, current_user, refresh, user_by_email,
  hash_of, session_of, login, cookie_value,
}

module _ (crypto : Crypto) {F : Type 0} (settings : Settings F) where
  decode_token-create_token :
      CryptoLaws crypto
      → (now later : Instant) (jti : Text) (id : ℕ) (kind : TokenKind) (ttl : ℕ) → now ≤ later
      → later < seconds (whole_seconds (now + seconds ttl))
      → decode_token crypto settings later (create_token crypto settings now jti id kind ttl) kind
        ≡ some (pos id)
  unfolding decode_token create_token
  decode_token-create_token laws now later jti id kind ttl le lt =
      let claims = claims_of crypto settings now jti id kind ttl in
      rw (laws.decode_encode claims settings.jwt_secret later (omega arith) lt, decode_token)
        (rw (text_eq_refl (kind_text kind)) (laws.int_of_decimal id))

  decode_token-expired :
      CryptoLaws crypto
      → (now later : Instant) (jti : Text) (id : ℕ) (kind : TokenKind) (ttl : ℕ)
      → seconds (whole_seconds (now + seconds ttl)) ≤ later
      → decode_token crypto settings later (create_token crypto settings now jti id kind ttl) kind
        ≡ none
  unfolding decode_token create_token
  decode_token-expired laws now later jti id kind ttl le =
      let claims = claims_of crypto settings now jti id kind ttl in
      rw (laws.decode_expired claims settings.jwt_secret later le, decode_token) refl

  -- the caller that a row of the users makes
  abbrev pub caller_of : Option User → Caller
  caller_of none = refused not_logged_in
  caller_of (some user) = known user

  abbrev pub reopened : Instant → Text × Text → Option User → Session
  reopened now jtis none = unauthorized not_logged_in
  reopened now jtis (some user) = opened user (set_session crypto settings now jtis user)

  user_of-accepted :
      (db : Db F) (now : Instant) (token : Text) (kind : TokenKind) (id : ℕ) (row : Option User)
      → decode_token crypto settings now token kind ≡ some (pos id)
      → get_user_row db id ≡ row
      → user_of crypto settings db now (some token) kind ≡ caller_of row
  unfolding user_of
  user_of-accepted db now token kind id none e there = rw (e, user_of) (rw there refl)
  user_of-accepted db now token kind id (some user) e there = rw (e, user_of) (rw there refl)

  user_of-expired :
      (db : Db F) (now : Instant) (token : Text) (kind : TokenKind)
      → decode_token crypto settings now token kind ≡ none
      → user_of crypto settings db now (some token) kind ≡ refused session_expired
  unfolding user_of
  user_of-expired db now token kind e = rw (e, user_of) refl

  refresh-caller :
      (db : Db F) (now : Instant) (jtis : Text × Text) (cookie : Option Text) (row : Option User)
      → user_of crypto settings db now cookie refresh_kind ≡ caller_of row
      → refresh crypto settings db now jtis cookie ≡ reopened now jtis row
  unfolding refresh
  refresh-caller db now jtis cookie none e = rw (e, refresh) refl
  refresh-caller db now jtis cookie (some user) e = rw (e, refresh) refl

  session_of-opened :
      (db : Db F) (now : Instant) (jtis : Text × Text) (valid : Bool) (found : Option User)
      (user : User) (cookies : List Cookie)
      → session_of crypto settings db now jtis valid found ≡ opened user cookies
      → (found ≡ some user) × (valid ≡ true) × (cookies ≡ set_session crypto settings now jtis user)
  session_of-opened db now jtis valid none user cookies h = cc
  session_of-opened db now jtis false (some u) user cookies h = cc
  session_of-opened db now jtis true (some u) user cookies h = (
    cc,
    refl,
    (let opened_by : set_session crypto settings now jtis u ≡ cookies = cc in
        sym opened_by ∙ ap (set_session crypto settings now jtis) cc),
  )

  session_of-unauthorized :
      (db : Db F) (now : Instant) (jtis : Text × Text) (valid : Bool) (found : Option User)
      (detail : Text)
      → session_of crypto settings db now jtis valid found ≡ unauthorized detail
      → detail ≡ wrong_credentials
  session_of-unauthorized db now jtis valid none detail h = cc
  session_of-unauthorized db now jtis false (some u) detail h = cc
  session_of-unauthorized db now jtis true (some u) detail h = cc

  module _ (db : Db F) (now : Instant) (jtis : Text × Text) (request : LoginRequest) where
    -- Login lets in exactly the user with the request's email whose hash verifies the password,
    -- with a new pair of tokens; and whoever is not let in, for want of a user or for a wrong
    -- password, is told the same.
    login_lem :
        ((user : User) (cookies : List Cookie)
          → login crypto settings db now jtis request ≡ opened user cookies
          → (user_by_email crypto settings db now request.email ≡ some user)
            × (verify_password crypto user.password_hash request.password ≡ true)
            × (cookies ≡ set_session crypto settings now jtis user))
        × ((user : User)
            → user_by_email crypto settings db now request.email ≡ some user
            → verify_password crypto user.password_hash request.password ≡ true
            → login crypto settings db now jtis request
              ≡ opened user (set_session crypto settings now jtis user))
        × ((detail : Text)
            → login crypto settings db now jtis request ≡ unauthorized detail
            → detail ≡ wrong_credentials)
    unfolding login
    login_lem = (
      λ user cookies h.
          let found = user_by_email crypto settings db now request.email in
          let valid =
            verify_password crypto (hash_of crypto settings db now found) request.password in
          let (e, v, same) = session_of-opened db now jtis valid found user cookies h in
          (
            e,
            subst
                (λ u.
                  verify_password crypto (hash_of crypto settings db now u) request.password ≡ true)
                e v,
            same,
          ),
      λ user e v. rw (e, login) (rw v refl),
      λ detail h. session_of-unauthorized db now jtis _ _ detail h,
    )

    -- For a lawful `jwt`: the cookies that a login set are good for the user that it let in. Later,
    -- until the access token ends, a request with the access cookie is the request of the user
    -- that the table then holds under that id, and a 401 when it holds none; from then on it is a
    -- 401. Until the refresh token ends, a refresh opens a new session for that user, and when the
    -- table holds none it is a 401 too.
    pub login-current_user :
        CryptoLaws crypto
        → (user : User) (cookies : List Cookie)
        → login crypto settings db now jtis request ≡ opened user cookies
        → (later : Instant) (db_later : Db F) (row : Option User) → now ≤ later
        → get_user_row db_later user.id ≡ row
        → (later < seconds (whole_seconds (now + seconds (access_ttl crypto settings)))
            → current_user crypto settings db_later later (cookie_value access_cookie cookies)
              ≡ caller_of row)
          × (seconds (whole_seconds (now + seconds (access_ttl crypto settings))) ≤ later
              → current_user crypto settings db_later later (cookie_value access_cookie cookies)
                ≡ refused session_expired)
          × ((jtis_later : Text × Text)
              → later < seconds (whole_seconds (now + seconds (refresh_ttl crypto settings)))
              → refresh crypto settings db_later later jtis_later
                  (cookie_value refresh_cookie cookies)
                ≡ reopened later jtis_later row)
    unfolding current_user cookie_value set_session find? text_eq
    login-current_user laws user cookies e later db_later row le there =
        let (found, verified, same) = login_lem.0 user cookies e in
        rw same (
          λ lt.
              user_of-accepted db_later later _ access user.id row
                (decode_token-create_token laws now later jtis.0 user.id access
                  (access_ttl crypto settings) le lt)
                there,
          λ ended. user_of-expired db_later later _ access (
              decode_token-expired laws now later jtis.0 user.id access (access_ttl crypto settings)
                ended),
          λ jtis_later lt. refresh-caller db_later later jtis_later _ row (
              user_of-accepted db_later later _ refresh_kind user.id row
                (decode_token-create_token laws now later jtis.1 user.id refresh_kind
                  (refresh_ttl crypto settings) le lt)
                there),
        )
