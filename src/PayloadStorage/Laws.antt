-- ===== src/PayloadStorage/Laws.antt =====
-- src/payload_storage/s3_codec.py: what is encoded is decoded as it was.
use mathlib.Core.Path.{subst}
use mathlib.Core.List.{append_cancel_left, append_cancel_right}
use agentic_temporal_wf.Base.{
  ℕ, suc, ◌<◌, ◌≤◌, true, false, Option, some, List, [], ◌∷◌, ◌≡◌, ◌≢◌, refl, sym, ap, ◌∙◌, inl,
  inr, arith, ◌&&◌, leb, ltb, all, All, length, nat_eq, text_eq, Outcome, returns, ◌>>=◌,
  Bool-cases, Outcome-cases, >>=-eq-returns, ℕ_discrete,
}
use agentic_temporal_wf.Base.Dict.{Dict, lookup}
use agentic_temporal_wf.Base.Text.{Text, codes}
use agentic_temporal_wf.Base.Json.{Json, or_empty-object}
use agentic_temporal_wf.Base.Json.Distinct.{distinct, distinct_fields}
use agentic_temporal_wf.PayloadStorage.{
  Bytes, Payload, S3, Runtime, Codec, World, object_key, original_meta, reference, inline,
  encode_one, encode, restored, as_metadata, fetch, is_reference, decode_one, decode,
}

-- What is documented of S3: a read after a write gives what was written, and a write changes no
-- other object of the bucket.
pub record IsStore (s3 : S3) : Type 0 where
  pub get-put :
      (bucket key : Text) (body : Bytes) (held next : s3.Held)
      → s3.put_object bucket key body held ≡ (returns tt, next)
      → s3.get_object bucket key next ≡ returns body
  pub get-put_ne :
      (bucket key other : Text) (body : Bytes) (held : s3.Held)
      → other ≢ key
      → s3.get_object bucket other (s3.put_object bucket key body held).1
        ≡ s3.get_object bucket other held

-- What is documented of `json` and `uuid4`.
pub record IsRuntime (x : Runtime) : Type 0 where
  pub of_json-to_json : (v : Json) → distinct v ≡ true → x.of_json (x.to_json v) ≡ some v
  pub uuid_injective : (m n : ℕ) → x.uuid m ≡ x.uuid n → m ≡ n

-- A payload of the converter: its metadata is a map of bytes, and it does not pass itself off as a
-- reference unless it is large enough to be stored.
pub record IsPayload (c : Codec) (p : Payload) : Type 0 where
  pub keys_once : distinct_fields (original_meta p.metadata) ≡ true
  pub bytes : All (λ (kv : Text × Bytes). all (λ b. ltb b 256) kv.1 ≡ true) p.metadata
  pub honest : (leb (length p.body) c.threshold && is_reference p) ≡ false

abbrev BytesOnly : Dict Text Bytes → Type 0
BytesOnly = All (λ (kv : Text × Bytes). all (λ b. ltb b 256) kv.1 ≡ true)

abbrev kept : Dict Text Bytes → Dict Text (Option Bytes)
kept [] = []
kept ((k, v) ∷ metadata) = (k, some v) ∷ kept metadata

restored-original_meta :
    (metadata : Dict Text Bytes)
    → BytesOnly metadata
    → restored (original_meta metadata) ≡ returns (kept metadata)
unfolding restored original_meta
restored-original_meta [] h = refl
restored-original_meta ((k, v) ∷ metadata) h =
    rw (restored, h.0, restored-original_meta metadata h.1) refl

as_metadata-kept : (metadata : Dict Text Bytes) → as_metadata (kept metadata) ≡ returns metadata
unfolding as_metadata
as_metadata-kept [] = refl
as_metadata-kept ((k, v) ∷ metadata) = rw (as_metadata-kept metadata) refl

fetch-reference :
    (s3 : S3) (c : Codec) (key : Text) (metadata : Dict Text Bytes) (body : Bytes) (held : s3.Held)
    → BytesOnly metadata
    → s3.get_object c.bucket key held ≡ returns body
    → fetch s3 (reference c key metadata) held
      ≡ returns (record { metadata = metadata; body = body })
unfolding fetch reference text_eq ℕ_discrete
fetch-reference s3 c key metadata body held h e =
    rw
      (
        e,
        or_empty-object (original_meta metadata),
        restored-original_meta metadata h,
        as_metadata-kept metadata,
      )
      refl

distinct-reference :
    (c : Codec) (key : Text) (metadata : Dict Text Bytes)
    → distinct_fields (original_meta metadata) ≡ true
    → distinct (reference c key metadata) ≡ true
unfolding distinct distinct_fields reference text_eq ℕ_discrete
distinct-reference c key metadata h = ground (arith, h)

-- The keys of an encoder are told apart by their numbers.
object_key_injective :
    (x : Runtime) (v : IsRuntime x) (c : Codec) (m n : ℕ)
    → object_key c (x.uuid m) ≡ object_key c (x.uuid n)
    → m ≡ n
unfolding object_key
object_key_injective x v c m n e = v.uuid_injective m n (
    append_cancel_right (x.uuid m) (x.uuid n) (codes ".bin")
      (append_cancel_left (codes "/") _ _ (append_cancel_left c.prefix _ _ e)))

is_reference-inline :
    (x : Runtime) (c : Codec) (key : Text) (p : Payload) → is_reference (inline x c key p) ≡ true
unfolding is_reference inline lookup text_eq ℕ_discrete
is_reference-inline x c key p = refl

module _ (s3 : S3) (store : IsStore s3) (x : Runtime) (v : IsRuntime x) (c : Codec) where
  -- What S3 gives for the n-th key.
  abbrev held_at : ℕ → s3.Held → Outcome Bytes
  held_at n held = s3.get_object c.bucket (object_key c (x.uuid n)) held

  -- The keys that were drawn before keep their objects.
  encode_one-keeps :
      (p : Payload) (w : World s3) (n : ℕ)
      → n < w.drawn
      → (held_at n (encode_one s3 x c p w).1.held ≡ held_at n w.held)
        × (w.drawn ≤ (encode_one s3 x c p w).1.drawn)
  unfolding encode_one
  encode_one-keeps p w n h = elim (Bool-cases (leb (length p.body) c.threshold)) [
    | inl small ↦ rw small (refl, omega arith)
    | inr large ↦ rw large (
      store.get-put_ne c.bucket (object_key c (x.uuid w.drawn)) (object_key c (x.uuid n)) p.body
          w.held (λ e. let same_ = object_key_injective x v c n w.drawn e in absurd (omega arith)),
      omega arith,
    )
  ]

  encode-keeps :
      (ps : List Payload) (w : World s3) (n : ℕ)
      → n < w.drawn
      → held_at n (encode s3 x c ps w).1.held ≡ held_at n w.held
  unfolding encode
  encode-keeps [] w n h = refl
  encode-keeps (p ∷ ps) w n h =
      let mid = (encode_one s3 x c p w).1 in
      let (kept_one, more) = encode_one-keeps p w n h in
      elim (Outcome-cases (encode_one s3 x c p w).0) [
        | inr (e, failed) ↦ rw (encode, failed) kept_one
        | inl (q, first) ↦ rw (encode, first) (encode-keeps ps mid n (omega arith) ∙ kept_one)
      ]

  decode_small :
      (p : Payload) (held : s3.Held)
      → IsPayload c p
      → leb (length p.body) c.threshold ≡ true
      → decode_one s3 x p held ≡ returns p
  unfolding decode_one
  decode_small p held i small =
      let plain : is_reference p ≡ false = rw small at i.honest in rw (decode_one, plain) refl

  decode_large :
      (p : Payload) (n : ℕ) (held : s3.Held)
      → IsPayload c p
      → held_at n held ≡ returns p.body
      → decode_one s3 x (inline x c (object_key c (x.uuid n)) p) held ≡ returns p
  unfolding decode_one inline
  decode_large p n held i e =
      let key = object_key c (x.uuid n) in
      rw
        (
          is_reference-inline x c key p,
          v.of_json-to_json (reference c key p.metadata)
              (distinct-reference c key p.metadata i.keys_once),
        )
        (fetch-reference s3 c key p.metadata p.body held i.bytes e)

  encode_one-small :
      (p : Payload) (w : World s3)
      → leb (length p.body) c.threshold ≡ true
      → encode_one s3 x c p w ≡ (returns p, w)
  unfolding encode_one
  encode_one-small p w h = rw (encode_one, h) refl

  -- What the world is once the payload was stored.
  abbrev stored : Payload → World s3 → World s3
  stored p w = record {
    drawn = suc w.drawn;
    held = (s3.put_object c.bucket (object_key c (x.uuid w.drawn)) p.body w.held).1;
  }

  encode_one-large :
      (p : Payload) (w : World s3)
      → leb (length p.body) c.threshold ≡ false
      → encode_one s3 x c p w ≡ (
        (s3.put_object c.bucket (object_key c (x.uuid w.drawn)) p.body w.held).0
            >>= (λ _. returns (inline x c (object_key c (x.uuid w.drawn)) p)),
        stored p w,
      )
  unfolding encode_one
  encode_one-large p w h = rw (encode_one, h) refl

  -- What is decoded for a payload that was encoded, once those after it are encoded too.
  abbrev Decodes : Payload → List Payload → Outcome Payload × World s3 → Type 0
  Decodes p ps (o, mid) =
      (q : Payload) → o ≡ returns q → decode_one s3 x q (encode s3 x c ps mid).1.held ≡ returns p

  encode_one-Decodes :
      (p : Payload) (w : World s3) (ps : List Payload)
      → IsPayload c p
      → Decodes p ps (encode_one s3 x c p w)
  encode_one-Decodes p w ps i = elim (Bool-cases (leb (length p.body) c.threshold)) [
    | inl small ↦ subst (Decodes p ps) (sym (encode_one-small p w small)) (λ q e.
        let same_ : p ≡ q = cc (e) in
        ap (λ (t : Payload). decode_one s3 x t (encode s3 x c ps w).1.held) (sym same_)
        ∙ decode_small p (encode s3 x c ps w).1.held i small)
    | inr large ↦ subst (Decodes p ps) (sym (encode_one-large p w large)) (λ q e.
        let key = object_key c (x.uuid w.drawn) in
        let last = (encode s3 x c ps (stored p w)).1.held in
        let (_, put, named) = >>=-eq-returns (s3.put_object c.bucket key p.body w.held).0 _ e in
        let same_ : inline x c key p ≡ q = cc (named) in
        let there =
          store.get-put c.bucket key p.body w.held (stored p w).held
            (λ j. (put j, (stored p w).held)) in
        ap (λ (t : Payload). decode_one s3 x t last) (sym same_)
        ∙ decode_large p w.drawn last i
            (encode-keeps ps (stored p w) w.drawn (omega arith) ∙ there))
  ]

  -- Payloads that were encoded are decoded as they were, in their order and with their metadata,
  -- by whoever has the same S3 and `json`, where S3 holds what the encoder left. A small payload
  -- must not carry the encoding of a reference.
  pub decode-encode :
      (ps qs : List Payload) (w last : World s3)
      → All (IsPayload c) ps
      → encode s3 x c ps w ≡ (returns qs, last)
      → decode s3 x qs last.held ≡ returns ps
  unfolding decode encode
  decode-encode [] qs w last i h =
      let e : [] ≡ qs = cc (ap (λ (t : Outcome (List Payload) × World s3). t.0) h) in rw (← e) refl
  decode-encode (p ∷ ps) qs w last i h =
      let mid = (encode_one s3 x c p w).1 in
      elim (Outcome-cases (encode_one s3 x c p w).0) [
        | inr (e, failed) ↦
            let f =
              ap (λ (t : Outcome (List Payload) × World s3). t.0) (rw (encode, failed) at h) in
            cc (f)
        | inl (q, first) ↦
            let f = rw (encode, first) at h in
            let result = ap (λ (t : Outcome (List Payload) × World s3). t.0) f in
            let at_last = ap (λ (t : Outcome (List Payload) × World s3). t.1) f in
            let (rest, encoded, named) = >>=-eq-returns (encode s3 x c ps mid).0 _ result in
            let later =
              decode-encode ps rest mid (encode s3 x c ps mid).1 i.1
                (λ j. (encoded j, (encode s3 x c ps mid).1)) in
            let now = encode_one-Decodes p w ps i.0 q first in
            let both : decode s3 x (q ∷ rest) (encode s3 x c ps mid).1.held ≡ returns (p ∷ ps) =
              rw (now, later) refl in
            let same_ : q ∷ rest ≡ qs = cc (named) in
            ap (λ (t : List Payload). decode s3 x t last.held) (sym same_)
            ∙ (ap (λ (t : World s3). decode s3 x (q ∷ rest) t.held) (sym at_last) ∙ both)
      ]
