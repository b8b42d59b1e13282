-- ===== src/PayloadStorage.antt =====
-- src/payload_storage/s3_codec.py: payloads above a size are kept in S3, and a reference stands for
-- them on the wire. S3 and `json` are parameters.
pub mod Laws
use agentic_temporal_wf.Base.{
  ℕ, suc, ◌+◌, Bool, true, false, Option, none, some, List, [], ◌∷◌, ◌++◌, ◌≡◌, ◌≢◌, if◌then◌else◌,
  ◌&&◌, not, leb, ltb, all, length, ◌==◌, nat_eq, text_eq, Outcome, returns, raises, ◌>>=◌,
  value_error, type_error, attribute_error, ⊤,
}
use agentic_temporal_wf.Base.Dict.{Dict, lookup}
use agentic_temporal_wf.Base.Text.{Text, codes}
use agentic_temporal_wf.Base.Json.{
  Json, Items, Fields, nil, cons, null, boolean, number, string, array, object, end, field, get,
  index, or_empty, find_field,
}

abbrev pub Bytes : Type 0
Bytes = List ℕ

pub record Payload : Type 0 where
  pub metadata : Dict Text Bytes
  pub body : Bytes

-- The client of S3, over what the service holds.
pub record S3 : Type 1 where
  pub Held : Type 0
  pub put_object : Text → Text → Bytes → Held → Outcome ⊤ × Held
  pub get_object : Text → Text → Held → Outcome Bytes

-- `json.dumps` and `json.loads` with the encoding of their texts as bytes; none is a
-- `UnicodeDecodeError` or a `JSONDecodeError`, which are `ValueError`s. `uuid n` is the n-th
-- `uuid4().hex` of the process.
pub record Runtime : Type 0 where
  pub to_json : Json → Bytes
  pub of_json : Bytes → Option Json
  pub uuid : ℕ → Text

pub record Codec : Type 0 where
  pub bucket : Text
  pub threshold : ℕ
  pub prefix : Text

-- `S3PayloadCodec(bucket=...)` with the defaults of its constructor.
unfoldable pub default_codec : Text → Codec
default_codec bucket = record { bucket = bucket; threshold = 10000; prefix = codes "payloads" }

abbrev pub s3_encoding : Bytes
s3_encoding = codes "binary/s3"

unfoldable pub object_key : Codec → Text → Text
object_key c hex = c.prefix ++ (codes "/" ++ (hex ++ codes ".bin"))

-- `v.decode("latin-1")` takes each byte for the character of its number.
unfoldable pub original_meta : Dict Text Bytes → Fields
original_meta [] = end
original_meta ((k, v) ∷ metadata) = field k (string v) (original_meta metadata)

unfoldable pub reference : Codec → Text → Dict Text Bytes → Json
unfolding original_meta
reference c key metadata = object (
    field (codes "bucket") (string c.bucket) (
      field (codes "key") (string key)
        (field (codes "meta") (object (original_meta metadata)) end)))

-- What stands for a payload that was stored.
unfoldable pub inline : Runtime → Codec → Text → Payload → Payload
unfolding reference
inline x c key p = record {
  metadata = (codes "encoding", s3_encoding) ∷ [];
  body = x.to_json (reference c key p.metadata);
}

-- `v.encode("latin-1")`: a character above 255 is a `UnicodeEncodeError`.
unfoldable pub latin_1 : Text → Outcome Bytes
latin_1 t = if all (λ c. ltb c 256) t then returns t else raises value_error

-- The values of the metadata: none for what is no text, which stays as it is.
unfoldable pub restored : Fields → Outcome (Dict Text (Option Bytes))
unfolding latin_1
restored end = returns []
restored (field k (string t) fs) = do
  v ← latin_1 t
  rest ← restored fs
  returns ((k, some v) ∷ rest)
restored (field k _ fs) = do rest ← restored fs; returns ((k, none) ∷ rest)

-- `Payload(metadata=...)` takes bytes only.
unfoldable pub as_metadata : Dict Text (Option Bytes) → Outcome (Dict Text Bytes)
as_metadata [] = returns []
as_metadata ((k, none) ∷ d) = raises type_error
as_metadata ((k, some v) ∷ d) = do rest ← as_metadata d; returns ((k, v) ∷ rest)

-- `(ref.get("meta") or {}).items()`
unfoldable pub items : Json → Outcome Fields
items (object fs) = returns fs
items _ = raises attribute_error

unfoldable pub as_text : Json → Outcome Text
as_text (string t) = returns t
as_text _ = raises type_error

unfoldable pub is_reference : Payload → Bool
unfolding lookup
is_reference p = elim (lookup (codes "encoding") p.metadata) [
  | none ↦ false
  | some encoding ↦ encoding == s3_encoding
]

module _ (s3 : S3) where
  open s3 use {Held, put_object, get_object}

  -- The number of keys that were drawn, and what S3 holds.
  pub record World : Type 0 where
    pub drawn : ℕ
    pub held : Held

  -- The round of `encode` for one payload.
  unfoldable pub encode_one : Runtime → Codec → Payload → World → Outcome Payload × World
  unfolding object_key inline
  encode_one x c p w =
      let key = object_key c (x.uuid w.drawn) in
      let (put, held) = put_object c.bucket key p.body w.held in
      if leb (length p.body) c.threshold
      then (returns p, w)
      else (put >>= λ _. returns (inline x c key p), record { drawn = suc w.drawn; held = held })

  unfoldable pub encode : Runtime → Codec → List Payload → World → Outcome (List Payload) × World
  unfolding encode_one
  encode x c [] w = (returns [], w)
  encode x c (p ∷ ps) w =
      let (first, mid) = encode_one x c p w in
      elim first [
        | raises e ↦ (raises e, mid)
        | returns q ↦
            let (rest, last) = encode x c ps mid in (rest >>= λ qs. returns (q ∷ qs), last)
      ]

  unfoldable pub fetch : Json → Held → Outcome Payload
  unfolding index as_text get or_empty items restored as_metadata
  fetch ref held = do
    bucket ← index ref (codes "bucket")
    key ← index ref (codes "key")
    bucket' ← as_text bucket
    key' ← as_text key
    body ← get_object bucket' key' held
    meta ← get ref (codes "meta")
    fields ← items (or_empty meta)
    values ← restored fields
    metadata ← as_metadata values
    returns (record { metadata = metadata; body = body })

  unfoldable pub decode_one : Runtime → Payload → Held → Outcome Payload
  unfolding fetch is_reference
  decode_one x p held =
      let stored : Outcome Payload = elim (x.of_json p.body) [
        | none ↦ raises value_error
        | some ref ↦ fetch ref held
      ] in
      if is_reference p then stored else returns p

  unfoldable pub decode : Runtime → List Payload → Held → Outcome (List Payload)
  unfolding decode_one
  decode x [] held = returns []
  decode x (p ∷ ps) held = do q ← decode_one x p held; rest ← decode x ps held; returns (q ∷ rest)
