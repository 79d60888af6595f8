-- ===== src/JsonRpc/Serde.antt =====
-- One concrete codec, which shows that the behaviour asked of `serde` can be met.
use mcp_shield.Prelude.{String, Option, none, some, Result, ok, err, ◌≡◌, ◌≢◌, refl, ◌>>=◌, ok_or}
use mcp_shield.Json.{ℤ, Value, Fields, null, integer, string, object, field, end, get, str_of}
use mcp_shield.Error.{RequestId}
use mcp_shield.JsonRpc.Message.{JsonRpcErrorObj}
use mcp_shield.JsonRpc.Codec.{Codec, IsFaithful}

abbrev write_id : RequestId → Value
write_id (RequestId.string s) = string s
write_id (RequestId.integer n) = integer n
write_id RequestId.null = null

abbrev read_id : Value → Result String RequestId
read_id (string s) = ok (RequestId.string s)
read_id (integer n) = ok (RequestId.integer n)
read_id null = ok RequestId.null
read_id _ = err "data did not match any variant"

abbrev code_of : Option Value → Result String ℤ
code_of (some (integer n)) = ok n
code_of _ = err "missing field `code`"

abbrev details_of : Option Value → Option Value
details_of (some null) = none
details_of o = o

abbrev write_data : Option Value → Fields
write_data none = end
write_data (some v) = field "data" v end

abbrev write_error : JsonRpcErrorObj → Value
write_error e =
    object
      (field "code" (integer e.code) (field "message" (string e.message) (write_data e.details)))

abbrev read_error : Value → Result String JsonRpcErrorObj
read_error v = do
  code ← code_of (get v "code")
  message ← ok_or (str_of (get v "message")) "missing field `message`"
  ok (record { code = code; message = message; details = details_of (get v "data") })

abbrev pub serde : Codec
serde = record {
  read_id = read_id;
  write_id = write_id;
  read_error = read_error;
  write_error = write_error;
}

read-write_id : (i : RequestId) → read_id (write_id i) ≡ ok i
read-write_id (RequestId.string s) = refl
read-write_id (RequestId.integer n) = refl
read-write_id RequestId.null = refl

details-write_data :
    (code : ℤ) (message : String) (o : Option Value)
    → o ≢ some null
    → details_of (
        get
          (object (field "code" (integer code) (field "message" (string message) (write_data o))))
          "data")
      ≡ o
unfolding get
details-write_data code message none h = refl
details-write_data code message (some null) h = absurd (h refl)
details-write_data code message (some v) h = refl

read-write_error : (e : JsonRpcErrorObj) → e.details ≢ some null → read_error (write_error e) ≡ ok e
unfolding get
read-write_error e h = rw (details-write_data e.code e.message e.details h)

pub serde-IsFaithful : IsFaithful serde
serde-IsFaithful = record {
  id = λ i h. read-write_id i;
  error = λ e h. read-write_error e h.details;
}
