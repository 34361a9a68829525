-- ===== src/Pipeline/Tests.antt =====
-- Sessions over a world without a network, and two sources with the same parameters.
use data_loader.Prelude.{
  ℕ, suc, ◌+◌, ◌*◌, ◌≡◌, refl, true, false, ◌||◌, ◌&&◌, leb, none, some, List, [], ◌∷◌, lit, plain,
  ok, err, arith, Text, to_lower,
}
use data_loader.SqlIdent.{Unicode}
use data_loader.Modbus
use data_loader.Modbus.{Floats}
use data_loader.Pipeline.Runner.Atomic.{SourcesKeepContract}
use data_loader.Pipeline.Ephemeral.{ephemeral}
use data_loader.Pipeline.Ephemeral.Contract.{ephemeral-SourcesKeepContract}
use data_loader.Pipeline.Fingerprint.{hashed, encode, sort_keys, insert_key, text_le, hashed_inj}
use data_loader.Sources.Connect.{Backends, build}
use data_loader.Sources.Driver.{SourceDb, Conversions}
use data_loader.Sources.OpcUa

abbrev ascii : Unicode
ascii = record {
  is_letter = λ c. (leb b'A' c && leb c b'Z') || (leb b'a' c && leb c b'z');
  is_number = λ c. leb b'0' c && leb c b'9';
  letter_ascii = λ c small. refl;
  number_ascii = λ c small. refl;
}

abbrev conversions : Conversions
conversions = record {
  text_of_bytes = λ bytes. bytes;
  format_float = λ n. [];
  format_int = λ n. [];
  format_time = λ n. "now";
  parse_time = λ s. err (plain "no time");
}

abbrev naturals : Floats
naturals = record {
  of_int = λ negative n. n;
  of_float32 = λ bits. bits;
  mul = λ a b. a * b;
  add = λ a b. a + b;
  is_nan = λ a. false;
  is_inf = λ a. false;
}

-- A database whose result sets are empty; the world counts the calls.
abbrev empty_db : SourceDb ℕ
empty_db = record {
  query = λ text args n. (ok (record { column_types = ok []; rows = []; rows_err = none }), suc n);
  query_time = λ text n. (ok none, suc n);
  query_string = λ text n. (ok none, suc n);
}

abbrev gateway : Modbus.Client ℕ
gateway = record {
  set_unit_id = λ id n. (none, suc n);
  set_encoding = λ e w n. (none, suc n);
  read_coil = λ a n. (ok true, suc n);
  read_discrete_input = λ a n. (ok true, suc n);
  read_registers = λ a q t n. (err (plain "timeout"), suc n);
  render = λ e. lit "error";
}

abbrev server : OpcUa.Client ℕ ℕ
server = record {
  parse_node_id = λ t. ok 1;
  read = λ ids n. (err (plain "timeout"), suc n);
  status_text = λ s. [];
  render = λ e. lit "error";
  format_time = λ t. [];
}

abbrev backends : Backends ℕ ℕ ℕ
backends = record {
  unicode = ascii;
  conversions = conversions;
  floats = naturals;
  now = λ n. n;
  sql_open = λ driver url n. (ok n, suc n);
  sql_ping = λ k n. (none, suc n);
  sql_close = λ k n. suc n;
  sql_db = λ k. empty_db;
  modbus_new = λ url timeout n. (ok n, suc n);
  modbus_open = λ k n. (none, suc n);
  modbus_close = λ k n. suc n;
  modbus_client = λ k. gateway;
  modbus_tags = λ id n. none;
  opcua_new = λ endpoint options n. (ok n, suc n);
  opcua_connect = λ k n. (some (plain "refused"), suc n);
  opcua_close = λ k n. suc n;
  opcua_client = λ k. server;
  opcua_nodes = λ id n. some (ok []);
}

ephemeral-SourcesKeepContract_example : SourcesKeepContract {S = ℕ} (ephemeral (build backends))
ephemeral-SourcesKeepContract_example = ephemeral-SourcesKeepContract backends

abbrev forwards : List (Text × Text)
forwards = (lit "a", lit "1") ∷ (lit "b", lit "2") ∷ []

abbrev backwards : List (Text × Text)
backwards = (lit "b", lit "2") ∷ (lit "a", lit "1") ∷ []

same_bytes : hashed to_lower (lit "PG") forwards ≡ hashed to_lower (lit "pg") backwards
unfolding hashed encode sort_keys insert_key text_le
same_bytes = refl

hashed_inj_example :
    (to_lower (lit "PG") ≡ to_lower (lit "pg")) × (sort_keys forwards ≡ sort_keys backwards)
hashed_inj_example =
    hashed_inj to_lower (lit "PG") (lit "pg") forwards backwards
      ((λ q. omega (arith, q)), ((λ q. omega (arith, q)), tt))
      ((λ q. omega (arith, q)), ((λ q. omega (arith, q)), tt))
      (
        (((λ q. omega (arith, q)), tt), ((λ q. omega (arith, q)), tt)),
        ((((λ q. omega (arith, q)), tt), ((λ q. omega (arith, q)), tt)), tt),
      )
      (
        (((λ q. omega (arith, q)), tt), ((λ q. omega (arith, q)), tt)),
        ((((λ q. omega (arith, q)), tt), ((λ q. omega (arith, q)), tt)), tt),
      )
      same_bytes
