-- ===== src/Http.antt =====
-- `sendHttpRequest` of the registry clients (src/rest/SchemaRegistryClient.cpp and
-- src/rest/DekRegistryClient.cpp), and what the clients stand on: the session for a request, the
-- clock, and what nlohmann::json makes of a body.
use libschemaregistry.Exec.{Exec}
use libschemaregistry.Outcome.{Outcome, ok, throw, rest_exception, std_exception}
use libschemaregistry.Prelude.Dict.{Dict}
use libschemaregistry.Prelude.{Bool, true, false, ◌++◌, Text, codes}
use libschemaregistry.Retry.{Network, Configuration, send_http_request}

-- A request, past the base URL.
pub record Request : Type 0 where
  pub path : Text
  pub verb : Text
  pub query : Dict Text Text
  pub body : Text

-- `network` is the session for a method, a query and a body.
pub record Session (W : Type 0) : Type 0 where
  pub network : Text → Dict Text Text → Text → Network W
  pub config : Configuration

module _ {W : Type 0} (session : Session W) where
  unfoldable pub send : Request → Exec W Text
  send r = send_http_request (session.network r.verb r.query r.body) session.config r.path

-- What `json::parse` and `from_json` make of a text: a value, or an exception with its `what()`.
pub data Parsed (A : Type 0) : Type 0 where
  parsed : A → Parsed A
  malformed : Text → Parsed A

-- A `try` block that hands on the failure of the parser as a `RestException`.
unfoldable pub or_rest_exception : {A : Type 0} → Text → Parsed A → Outcome A
or_rest_exception prefix (parsed a) = ok a
or_rest_exception prefix (malformed what) = throw (rest_exception (prefix ++ what) 0)

-- The parser without a `try` block.
unfoldable pub or_std_exception : {A : Type 0} → Parsed A → Outcome A
or_std_exception (parsed a) = ok a
or_std_exception (malformed what) = throw (std_exception what)

-- `b ? "true" : "false"`
abbrev pub flag : Bool → Text
flag true = codes "true"
flag false = codes "false"
