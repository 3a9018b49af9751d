-- ===== src/Client/Admin.antt =====
-- src/pyka/client.py, class Admin: the control plane, over urllib and JSON, which are parameters.
pub mod Served
use pyka.Common.{
  ℕ, List, [], ◌∷◌, ◌++◌, ◌+◌, Bool, true, false, Option, none, some, Result, ok, err, Error, ◌==◌,
  if◌then◌else◌, ◌>>=◌,
}
use pyka.Common.Int.{ℤ, pos, negsuc}
use pyka.Python.Struct.{Bytes}
use pyka.Python.Text.{Str, decimal}
use pyka.Client.Connection.{Failure, pyka_error, raised, Outcome, returned, raises, running}

pub data HttpMethod : Type 0 where
  get : HttpMethod
  post : HttpMethod

-- `is_json` is whether there is a content-type header, which says that the body is JSON.
pub record HttpRequest : Type 0 where
  pub method : HttpMethod
  pub url : Str
  pub content : Option Bytes
  pub is_json : Bool

-- What `urlopen` and `response.read()` come to: the bytes, an HTTPError with its code, another
-- OSError, or an exception that is none of these.
pub data Opened : Type 0 where
  read : Bytes → Opened
  http_error : ℕ → Opened
  os_error : Opened
  other_error : Error → Opened

-- urllib and json. `J` is what `json.loads` returns, `item` is `value[key]`, `truth` is bool(value),
-- `dump_topic` is json.dumps({"name": name, "partitions": partitions}).encode().
pub record Web (W J : Type 0) : Type 0 where
  pub urlopen : ℕ → HttpRequest → W → Opened × W
  pub dump_topic : Str → ℤ → Bytes
  pub loads : Bytes → Result J
  pub item : J → Str → Result J
  pub truth : J → Bool

pub record Admin : Type 0 where
  pub url : Str
  pub timeout : ℕ

-- text.rstrip("/")
unfoldable pub rstrip_slash : Str → Str
rstrip_slash [] = []
rstrip_slash (c ∷ cs) = elim (rstrip_slash cs) [
  | [] ↦ if c == 0x2f then [] else c ∷ []
  | d ∷ ds ↦ c ∷ d ∷ ds
]

unfoldable pub make_admin : Str → ℕ → Admin
unfolding rstrip_slash
make_admin url timeout = record { url = rstrip_slash url; timeout = timeout }

-- "/topics"
abbrev pub slash_topics : Str
slash_topics = 0x2f ∷ 0x74 ∷ 0x6f ∷ 0x70 ∷ 0x69 ∷ 0x63 ∷ 0x73 ∷ []

-- "/partitions/"
abbrev pub slash_partitions : Str
slash_partitions =
    0x2f ∷ 0x70 ∷ 0x61 ∷ 0x72 ∷ 0x74 ∷ 0x69 ∷ 0x74 ∷ 0x69 ∷ 0x6f ∷ 0x6e ∷ 0x73 ∷ 0x2f ∷ []

-- "ready"
abbrev pub ready_key : Str
ready_key = 0x72 ∷ 0x65 ∷ 0x61 ∷ 0x64 ∷ 0x79 ∷ []

-- "/readyz"
abbrev pub slash_readyz : Str
slash_readyz = 0x2f ∷ ready_key ++ 0x7a ∷ []

-- str(n)
abbrev pub signed : ℤ → Str
unfolding decimal
signed (pos n) = decimal n
signed (negsuc n) = 0x2d ∷ decimal (1 + n)

abbrev pub request_of : Admin → HttpMethod → Str → Option Bytes → HttpRequest
request_of admin method path none = record {
  method = method;
  url = admin.url ++ path;
  content = none;
  is_json = false;
}
request_of admin method path (some bytes) = record {
  method = method;
  url = admin.url ++ path;
  content = some bytes;
  is_json = true;
}

abbrev pub of_result {ℓ} : {A : Type ℓ} → Result A → Outcome A
of_result (ok a) = returned a
of_result (err e) = raises (raised e)

-- `_request`, after `urlopen`
abbrev pub outcome_of : {W J : Type 0} → Web W J → Opened → Outcome J
outcome_of web (read bytes) = of_result (web.loads bytes)
outcome_of web (http_error code) = raises pyka_error
outcome_of web os_error = raises pyka_error
outcome_of web (other_error e) = raises (raised e)

-- `_request`
unfoldable pub request :
    {W J : Type 0} → Web W J → Admin → Str → HttpMethod → Option Bytes → W → Outcome J × W
request web admin path method content w =
    let (opened, w') = web.urlopen admin.timeout (request_of admin method path content) w in
    (outcome_of web opened, w')

unfoldable pub create_topic : {W J : Type 0} → Web W J → Admin → Str → ℤ → W → Outcome J × W
unfolding request
create_topic web admin name partitions =
    request web admin slash_topics post (some (web.dump_topic name partitions))

unfoldable pub topics : {W J : Type 0} → Web W J → Admin → W → Outcome J × W
unfolding request
topics web admin = request web admin slash_topics get none

unfoldable pub describe : {W J : Type 0} → Web W J → Admin → Str → W → Outcome J × W
unfolding request
describe web admin name = request web admin (slash_topics ++ 0x2f ∷ name) get none

unfoldable pub partition_info : {W J : Type 0} → Web W J → Admin → Str → ℤ → W → Outcome J × W
unfolding request
partition_info web admin name partition =
    request web admin (slash_topics ++ 0x2f ∷ name ++ slash_partitions ++ signed partition) get none

unfoldable pub broker : {W J : Type 0} → Web W J → Admin → W → Outcome J × W
unfolding request
broker web admin = request web admin (0x2f ∷ []) get none

-- the body of the `try` of `ready`, and its `except`
abbrev pub readiness : {W J : Type 0} → Web W J → Outcome J → Outcome Bool
readiness web (returned value) =
    of_result (web.item value ready_key >>= λ ready. ok (web.truth ready))
readiness web (raises pyka_error) = returned false
readiness web (raises Failure.unknown_topic) = returned false
readiness web (raises (Failure.delivery_failed lost)) = returned false
readiness web (raises e) = raises e
readiness web running = running

unfoldable pub ready : {W J : Type 0} → Web W J → Admin → W → Outcome Bool × W
unfolding request
ready web admin w =
    let (outcome, w') = request web admin slash_readyz get none w in (readiness web outcome, w')
