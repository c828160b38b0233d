-- ===== src/Http.antt =====
-- utils/http/http.go: the client of Marathon and Mesos. The network and the parser of URLs are the
-- environment's.
pub mod Laws
use Prim.Native.Char.{Char, code}
use Prim.Native.String.{[], ◌∷◌, ◌++◌, char_at}
use mathlib.Core.List as L
use mantl_api.Prelude.{
  ℕ, ◌+◌, ◌/◌, ◌%◌, String, ◌==◌, Bool, true, false, not, ◌&&◌, ◌||◌, Option, none, some, List, ltb,
  leb, eqb, if◌then◌else◌,
}
use mantl_api.Prelude.Text.{has_prefix, has_suffix}
use mantl_api.Prelude.Slash.{path_join}
use mantl_api.Prelude.Outcome.{Result, ok, err, panic}
use mantl_api.Prelude.Outcome as R
use mantl_api.Prelude.Exec.{Exec, pure, lift, ◌>>=◌}

pub record HttpClient : Type 0 where
  pub location : String
  pub protocol : String
  pub path : String
  pub username : String
  pub password : String
  pub no_verify_ssl : Bool

-- The transport of a client; every client takes its proxy from the environment.
pub record Transport : Type 0 where
  pub insecure_skip_verify : Bool

-- `getClient`
unfoldable pub get_client : HttpClient → Transport
get_client c = record { insecure_skip_verify = c.no_verify_ssl }

-- What `doRequest` hands to `net/http`; every request also asks for and announces JSON.
pub record Request : Type 0 where
  pub method : String
  pub url : String
  pub body : Option String
  pub basic_auth : Option (String × String)
  pub transport : Transport

-- A response whose body can be read, or not.
pub record Response : Type 0 where
  pub status : ℕ
  pub body : Result String

pub record HttpRequest : Type 0 where
  pub request : Request
  pub response : Response
  pub response_text : String
  pub response_body : String

pub record Network (W : Type 0) : Type 0 where
  -- the error of `http.NewRequest` for a method and a URL, if any
  pub refuses : String → String → Option String
  -- `client.Do`
  pub send : Request → Exec W Response

-- scheme, host and path of `url.Parse`
abbrev pub UrlParser : Type 0
UrlParser = String → Result (String × String × String)

-- `ParseUrl`
unfoldable pub parse_url : UrlParser → String → Result (String × String × String)
parse_url parse u = parse (if has_prefix u "http" then u else "http://" ++ u)

-- `NewHttpClient`
unfoldable pub new_http_client : UrlParser → String → String → String → Bool → Result HttpClient
unfolding parse_url
new_http_client parse url user pw no_verify_ssl =
    R.◌>>=◌ (parse_url parse url) λ (scheme, host, path). ok (record {
      location = host;
      protocol = scheme;
      path = path;
      username = user;
      password = pw;
      no_verify_ssl = no_verify_ssl;
    })

-- `joinPaths` of two paths
unfoldable pub join_paths : String → String → String
join_paths base last =
    let joined = path_join (L.◌∷◌ base (L.◌∷◌ last L.[])) in
    if has_suffix last "/" && not (has_suffix joined "/") then joined ++ "/" else joined

-- The characters that `net/url` leaves alone in a path.
plain : ℕ → Bool
plain n =
    leb b'a' n && leb n b'z'
    || leb b'A' n && leb n b'Z'
    || leb b'0' n && leb n b'9'
    || eqb n b'-'
    || eqb n b'_'
    || eqb n b'.'
    || eqb n b'~'
    || eqb n b'$'
    || eqb n b'&'
    || eqb n b'+'
    || eqb n b','
    || eqb n b'/'
    || eqb n b':'
    || eqb n b';'
    || eqb n b'='
    || eqb n b'@'

hex : ℕ → Char
hex n = char_at "0123456789ABCDEF" n

-- the bytes of a character in UTF-8
unfoldable pub utf8 : ℕ → L.List ℕ
utf8 n =
    if ltb n 0x80
    then L.◌∷◌ n L.[]
    else if ltb n 0x800
    then L.◌∷◌ (0xc0 + n / 64) (L.◌∷◌ (0x80 + n % 64) L.[])
    else if ltb n 0x10000
    then L.◌∷◌ (0xe0 + n / 4096) (L.◌∷◌ (0x80 + (n / 64) % 64) (L.◌∷◌ (0x80 + n % 64) L.[]))
    else L.◌∷◌ (0xf0 + n / 262144)
        (L.◌∷◌ (0x80 + (n / 4096) % 64) (L.◌∷◌ (0x80 + (n / 64) % 64) (L.◌∷◌ (0x80 + n % 64) L.[])))

percent : L.List ℕ → String → String
unfolding hex
percent L.[] rest = rest
percent (L.◌∷◌ b bs) rest = let more = percent bs rest in "%" ++ hex (b / 16) ∷ hex (b % 16) ∷ more

escape : String → String
unfolding plain percent utf8
escape [] = ""
escape (c ∷ s) =
    let rest = escape s in if plain (code c) then c ∷ rest else percent (utf8 (code c)) rest

-- `URL.EscapedPath`
escape_path : String → String
unfolding escape
escape_path p = if p == "*" then "*" else escape p

-- the `/` that `URL.String` puts between a host and a path that has none
slash_before : String → String → String
slash_before host path =
    if not (path == "") && not (has_prefix path "/") && not (host == "") then "/" else ""

scheme_and_host : String → String → String
scheme_and_host scheme host =
    (if scheme == "" then "" else scheme ++ ":")
    ++ (if scheme == "" && host == "" then "" else "//" ++ host)

-- `HttpClient.url`, with `URL.String`
unfoldable pub url : HttpClient → String → String
unfolding escape_path slash_before scheme_and_host
url c path =
    let url_path = join_paths c.path path in
    scheme_and_host c.protocol c.location
    ++ slash_before c.location url_path
    ++ escape_path url_path

-- the request that `doRequest` builds
unfoldable pub request_for : HttpClient → String → String → String → Request
request_for c method path body = record {
  method = method;
  url = url c path;
  body = if body == "" then none else some body;
  basic_auth =
      if not (c.username == "") && not (c.password == "")
      then some (c.username, c.password)
      else none;
  transport = get_client c;
}

received : Request → Response → Result HttpRequest
received request response = R.◌>>=◌ response.body λ body.
    ok (record {
      request = request;
      response = response;
      response_text = body;
      response_body = body;
    })

module _ {W : Type 0} where
  -- what follows the error of `NewRequest`, if any
  unfoldable pub refused : Option String → Exec W HttpRequest → Exec W HttpRequest
  refused (some e) send = lift panic
  refused none send = send

module _ {W : Type 0} (net : Network W) where
  -- `doRequest`: headers are added to the request before the error of `NewRequest` is looked at,
  -- and there is no request then.
  unfoldable pub do_request : HttpClient → String → String → String → Exec W HttpRequest
  unfolding received refused
  do_request c method path body = refused (net.refuses method (url c path)) (
      net.send (request_for c method path body) >>= λ response.
      lift (received (request_for c method path body) response))

  -- `Get`, `Delete` and `Post`
  unfoldable pub http_get : HttpClient → String → Exec W HttpRequest
  unfolding do_request
  http_get c path = do_request c "GET" path ""

  unfoldable pub http_delete : HttpClient → String → Exec W HttpRequest
  unfolding do_request
  http_delete c path = do_request c "DELETE" path ""

  unfoldable pub http_post : HttpClient → String → String → Exec W HttpRequest
  unfolding do_request
  http_post c path body = do_request c "POST" path body
