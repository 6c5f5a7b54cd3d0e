-- ===== src/Shared/Headers.antt =====
-- The headers of HTTP messages, as the crate `http` keeps them.
use oj_monorepo.Base.{String, str_eq, not, List, [], ◌∷◌, keep, Option, none, some, if◌then◌else◌}

-- The value of a header: a text, or bytes that `to_str` refuses.
pub data HeaderValue : Type 0 where
  text : String → HeaderValue
  opaque : HeaderValue

-- Headers by their names in lower case; a name may have several values.
abbrev pub Headers : Type 0
Headers = List (String × HeaderValue)

abbrev pub get : String → Headers → Option HeaderValue
get name [] = none
get name ((n, v) ∷ rest) = if str_eq n name then some v else get name rest

-- `HeaderMap::remove` takes every value of a name away, and `insert` leaves one.
abbrev pub remove : String → Headers → Headers
remove name headers = keep (λ (h : String × HeaderValue). not (str_eq h.0 name)) headers

abbrev pub insert : String → HeaderValue → Headers → Headers
insert name value headers = (name, value) ∷ remove name headers
