-- ===== src/Tests/Logins.antt =====
-- Tokens and logins with a `jwt` that writes the claims down as they are.
use native.Mathlib.Omega.{arith}
use news2reel.Base.{
  ℤ, pos, ℕ, ◌+◌, ◌≤◌, ◌<◌, ◌≡◌, refl, ap, Option, none, some, List, [], ◌∷◌, leb, if◌then◌else◌,
  Text, codes, text_eq, length, take, drop, ◌++◌, find?,
}
use news2reel.Model.{Instant, seconds, User}
use news2reel.Store.{Db, get_user_row}
use news2reel.Accounts.{
  Crypto, CryptoLaws, Claims, LoginRequest, access, whole_seconds, known, refused, Cookie, opened,
  session_expired, access_cookie, refresh_cookie, verify_password, claims_of, set_session,
  current_user, refresh, user_by_email, login, cookie_value,
}
use news2reel.Accounts.Sessions.{login-current_user}
use news2reel.Tests.Setting.{defaults}
use news2reel.Tests.Rows.{newsroom}

take-prefix : (s t : Text) → take (length s) (s ++ t) ≡ s
unfolding take
take-prefix [] t = refl
take-prefix (c ∷ s) t = ap (λ r. c ∷ r) (take-prefix s t)

drop-prefix : (s t : Text) → drop (length s) (s ++ t) ≡ t
unfolding drop
drop-prefix [] t = refl
drop-prefix (c ∷ s) t = drop-prefix s t

-- A token: the times, the lengths of the subject and of the kind, and the three texts.
abbrev spell : Claims → Text
spell c = c.iat ∷ c.exp ∷ length c.sub ∷ length c.kind ∷ c.sub ++ (c.kind ++ c.jti)

abbrev read : Text → Option Claims
read (iat ∷ exp ∷ m ∷ n ∷ texts) = some (record {
  sub = take m texts;
  kind = take n (drop m texts);
  iat = iat;
  exp = exp;
  jti = drop n (drop m texts);
})
read t = none

abbrev if_current : Instant → Option Claims → Option Claims
if_current now none = none
if_current now (some c) = if leb (seconds c.exp) now then none else some c

abbrev read_number : Text → Option ℤ
read_number (n ∷ []) = some (pos n)
read_number t = none

abbrev crypto : Crypto
crypto = record {
  encode = λ c secret. spell c;
  decode = λ t secret now. if_current now (read t);
  decimal = λ n. n ∷ [];
  int_of = read_number;
  verify = λ hash password. some (text_eq hash password);
  dummy_hash = codes "dummy";
  normalized = λ email. email;
}

read-spell : (c : Claims) → read (spell c) ≡ some c
read-spell c = rw (take-prefix c.sub (c.kind ++ c.jti)) (
    rw (drop-prefix c.sub (c.kind ++ c.jti))
      (rw (take-prefix c.kind c.jti) (rw (drop-prefix c.kind c.jti) refl)))

crypto_laws : CryptoLaws crypto
crypto_laws = record {
  decode_encode = λ c secret now le lt. rw (read-spell c) (ground arith);
  decode_expired = λ c secret now le. rw (read-spell c) (ground arith);
  int_of_decimal = λ n. refl;
}

abbrev editor : User
editor = record { id = 4; email = codes "e@x"; password_hash = codes "pw" }

abbrev staffed : Db ℕ
staffed = record newsroom { users = editor ∷ [] }

abbrev right : LoginRequest
right = record { email = codes "e@x"; password = codes "pw" }

abbrev jtis : Text × Text
jtis = (codes "j", codes "k")

abbrev cookies : List Cookie
cookies = set_session crypto defaults 5000000 jtis editor

login-opened : login crypto defaults staffed 5000000 jtis right ≡ opened editor cookies
unfolding login user_by_email verify_password find? text_eq
login-opened = refl

-- One second later the user is still there.
login-current_user_example :
    (6000000 < seconds (whole_seconds (5000000 + seconds 900))
      → current_user crypto defaults staffed 6000000 (cookie_value access_cookie cookies)
        ≡ known editor)
    × (seconds (whole_seconds (5000000 + seconds 900)) ≤ 6000000
        → current_user crypto defaults staffed 6000000 (cookie_value access_cookie cookies)
          ≡ refused session_expired)
    × ((jtis_later : Text × Text)
        → 6000000 < seconds (whole_seconds (5000000 + seconds 604800))
        → refresh crypto defaults staffed 6000000 jtis_later (cookie_value refresh_cookie cookies)
          ≡ opened editor (set_session crypto defaults 6000000 jtis_later editor))
unfolding get_user_row find?
login-current_user_example =
    login-current_user crypto defaults staffed 5000000 jtis right crypto_laws editor cookies
      login-opened 6000000 staffed (some editor) (omega arith) refl

abbrev access_token : Text
access_token = spell (claims_of crypto defaults 5000000 (codes "j") 4 access 900)
