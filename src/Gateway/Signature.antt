-- ===== src/Gateway/Signature.antt =====
-- `_verify`: the signature of a request body. The HMAC is an argument: `hexdigest secret body` is
-- `hmac.new(secret.encode(), body, sha256).hexdigest()`.
use agentic_temporal_wf.Base.{ℕ, Bool, true, false, ◌&&◌, Option, none, some, List, ◌++◌}
use agentic_temporal_wf.Base.{◌≡◌, ◌↔◌, arith, if◌then◌else◌, ltb, all, ◌==◌, text_eq}
use agentic_temporal_wf.Base.{Outcome, returns, raises, type_error}
use agentic_temporal_wf.Base.Text.{Text, codes, starts_with, starts_with-append, nonempty}

abbrev pub Hmac : Type 0
Hmac = Text → List ℕ → Text

unfoldable pub is_ascii : Text → Bool
is_ascii = all (λ c. ltb c 128)

-- `hmac.compare_digest` compares texts only if both are ASCII.
unfoldable pub compare_digest : Text → Text → Outcome Bool
unfolding is_ascii
compare_digest a b = if is_ascii a && is_ascii b then returns (a == b) else raises type_error

abbrev pub prefix : Text
prefix = codes "sha256="

unfoldable pub verify : Hmac → Text → List ℕ → Option Text → Outcome Bool
unfolding starts_with compare_digest
verify hexdigest secret body none = returns false
verify hexdigest secret body (some signature) =
    if nonempty signature && starts_with signature prefix
    then compare_digest (prefix ++ hexdigest secret body) signature
    else returns false

-- With digests in ASCII: a request is verified exactly if its signature is the digest of its body
-- under the secret, behind `sha256=`.
pub verify-true :
    (hexdigest : Hmac) (secret : Text) (body : List ℕ) (signature : Option Text)
    → is_ascii (hexdigest secret body) ≡ true
    → (verify hexdigest secret body signature ≡ returns true)
      ↔ (signature ≡ some (prefix ++ hexdigest secret body))
unfolding verify
verify-true hexdigest secret body none ascii = (λ h. cc, λ h. cc)
verify-true hexdigest secret body (some signature) ascii =
    let whole = prefix ++ hexdigest secret body in
    (ground arith, ground (arith, starts_with-append prefix (hexdigest secret body)))
