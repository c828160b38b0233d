-- ===== src/Api/Response.antt =====
-- `http.ResponseWriter` of `net/http`: the first status that is written is sent, with the headers
-- that are set before it; writing text sends the status 200 if none is sent yet.
use Prim.Native.String.{◌++◌}
use mantl_api.Prelude.{ℕ, String, Option, none, some, []}
use mantl_api.Prelude.Dict.{Map, put}

pub record Writer : Type 0 where
  pub status : Option ℕ
  pub headers : Map String
  pub body : String

abbrev pub fresh : Writer
fresh = record { status = none; headers = []; body = "" }

abbrev sent : Option ℕ → ℕ → Option ℕ
sent none n = some n
sent (some m) n = some m

abbrev headers_after : Option ℕ → String → String → Map String → Map String
headers_after none k v m = put k v m
headers_after (some s) k v m = m

-- `WriteHeader`
abbrev pub write_header : ℕ → Writer → Writer
write_header n w = record w { status = sent w.status n }

-- `Header().Set`
abbrev pub set_header : String → String → Writer → Writer
set_header k v w = record w { headers = headers_after w.status k v w.headers }

-- `Write`
abbrev pub write_text : String → Writer → Writer
write_text text w = record w { status = sent w.status 200; body = w.body ++ text }
