-- ===== src/Base/OsPath/Laws.antt =====
-- The components of a path under `normpath`.
use mathlib.Core.Bool.{Bool, true, false, not, ◌&&◌, ◌||◌}
use mathlib.Core.Path.{◌≡◌, refl, sym, ap, ◌∙◌}
use mathlib.Core.Logic.{◌≢◌, ◌⊎◌, inl, inr}
use mathlib.Core.List.{List, [], ◌∷◌, ◌++◌, append_assoc, append-nil}
use Prim.Native.Nat.{ℕ}
use native.Mathlib.Omega.{arith}
use native.Mathlib.Decide.{ℕ_discrete}
use agentic_temporal_wf.Base.Tests.{if◌then◌else◌, Bool-cases}
use agentic_temporal_wf.Base.Equality.{◌==◌, nat_eq, text_eq}
use agentic_temporal_wf.Base.Lists.{all, all-append, All, All-append}
use agentic_temporal_wf.Base.Text.{
  Text, codes, split, split_from, join, starts_with, nonempty, text_or,
}
use agentic_temporal_wf.Base.OsPath.{
  slash, up, skipped, pop, ends_up, visit, resolve, leading, normpath, no_comps,
}

unfoldable pub not_slash : ℕ → Bool
not_slash c = if c == slash then false else true

abbrev pub NoSlash : Text → Type 0
NoSlash t = all not_slash t ≡ true

-- A component that names an entry of a directory.
pub record IsName (t : Text) : Type 0 where
  pub some_text : nonempty t ≡ true
  pub no_slash : NoSlash t
  pub not_here : t ≢ codes "."
  pub not_up : t ≢ up

split_from-NoSlash : (cur s : Text) → NoSlash cur → All NoSlash (split_from slash cur s)
unfolding split_from not_slash
split_from-NoSlash cur [] h = (h, tt)
split_from-NoSlash cur (c ∷ s) h = elim (Bool-cases (c == slash)) [
  | inl end ↦ rw end (h, split_from-NoSlash [] s refl)
  | inr more ↦
      rw more
        (split_from-NoSlash (cur ++ c ∷ []) s (ground (arith, all-append not_slash cur (c ∷ []))))
]

pub split-NoSlash : (s : Text) → All NoSlash (split slash s)
unfolding split
split-NoSlash s = split_from-NoSlash [] s refl

All-pop : (xs : List Text) → All IsName xs → All IsName (pop xs)
unfolding pop
All-pop [] h = h
All-pop (x ∷ []) h = tt
All-pop (x ∷ y ∷ xs) h = (h.0, All-pop (y ∷ xs) h.1)

ends_up-IsName : (xs : List Text) → All IsName xs → ends_up xs ≡ false
unfolding ends_up
ends_up-IsName [] h = refl
ends_up-IsName (x ∷ []) h = let n = h.0.not_up in ground (arith, n)
ends_up-IsName (x ∷ y ∷ xs) h = ends_up-IsName (y ∷ xs) h.1

name_of : (t : Text) → skipped t ≡ false → (t == up) ≡ false → NoSlash t → IsName t
name_of t s u n = record {
  some_text = ground arith;
  no_slash = n;
  not_here = ground arith;
  not_up = ground arith;
}

visit-IsName :
    (comps : List Text) (comp : Text)
    → All IsName comps
    → NoSlash comp
    → All IsName (visit true comps comp)
unfolding visit
visit-IsName comps comp h n = elim (Bool-cases (skipped comp)) [
  | inl out ↦ rw out h
  | inr kept ↦ elim (Bool-cases (comp == up)) [
    | inl back ↦ rw (kept, back, ends_up-IsName comps h) (All-pop comps h)
    | inr name ↦
        rw (kept, name) (All-append IsName comps (comp ∷ []) h (name_of comp kept name n, tt))
  ]
]

pub resolve-IsName :
    (comps rest : List Text)
    → All IsName comps
    → All NoSlash rest
    → All IsName (resolve true comps rest)
unfolding resolve
resolve-IsName comps [] h n = h
resolve-IsName comps (comp ∷ rest) h n =
    resolve-IsName (visit true comps comp) rest (visit-IsName comps comp h n.0) n.1

-- A run without a slash is read into the component that is being read.
pub split_from-append :
    (cur w s : Text) → NoSlash w → split_from slash cur (w ++ s) ≡ split_from slash (cur ++ w) s
unfolding split_from not_slash
split_from-append cur [] s h = rw append-nil
split_from-append cur (c ∷ w) s h =
    let rec = split_from-append (cur ++ c ∷ []) w s (ground arith) in
    ground (arith, rec, append_assoc cur (c ∷ []) w)

pub split_from-close :
    (cur s : Text) → split_from slash cur (slash ∷ s) ≡ cur ∷ split_from slash [] s
unfolding split_from ℕ_discrete
split_from-close cur s = refl

pub split_from-join :
    (x : Text) (xs : List Text)
    → All NoSlash (x ∷ xs)
    → split_from slash [] (join (codes "/") (x ∷ xs)) ≡ x ∷ xs
unfolding join split_from ℕ_discrete
split_from-join x [] h =
    ap (split_from slash []) (sym (append-nil x)) ∙ split_from-append [] x [] h.0
split_from-join x (y ∷ ys) h =
    split_from-append [] x (codes "/" ++ join (codes "/") (y ∷ ys)) h.0
    ∙ ap (λ (t : List Text). x ∷ t) (split_from-join y ys h.1)

pub All-NoSlash : (xs : List Text) → All IsName xs → All NoSlash xs
All-NoSlash [] h = tt
All-NoSlash (x ∷ xs) h = (h.0.no_slash, All-NoSlash xs h.1)

-- What `normpath` keeps of a relative path.
abbrev IsEntry : Text → Type 0
IsEntry t = (nonempty t ≡ true) × NoSlash t

All_entries-pop : (xs : List Text) → All IsEntry xs → All IsEntry (pop xs)
unfolding pop
All_entries-pop [] h = h
All_entries-pop (x ∷ []) h = tt
All_entries-pop (x ∷ y ∷ xs) h = (h.0, All_entries-pop (y ∷ xs) h.1)

visit-IsEntry :
    (rooted : Bool) (comps : List Text) (comp : Text)
    → All IsEntry comps
    → NoSlash comp
    → All IsEntry (visit rooted comps comp)
unfolding visit
visit-IsEntry rooted comps comp h n = elim (Bool-cases (skipped comp)) [
  | inl out ↦ rw out h
  | inr kept ↦
      let longer : All IsEntry (comps ++ comp ∷ []) =
        All-append IsEntry comps (comp ∷ []) h ((ground arith, n), tt) in
      elim (Bool-cases (not (comp == up) || (not rooted && no_comps comps) || ends_up comps)) [
        | inl more ↦ rw (kept, more) longer
        | inr back ↦ rw (kept, back) (All_entries-pop comps h)
      ]
]

resolve-IsEntry :
    (rooted : Bool) (comps rest : List Text)
    → All IsEntry comps
    → All NoSlash rest
    → All IsEntry (resolve rooted comps rest)
unfolding resolve
resolve-IsEntry rooted comps [] h n = h
resolve-IsEntry rooted comps (comp ∷ rest) h n =
    resolve-IsEntry rooted (visit rooted comps comp) rest (visit-IsEntry rooted comps comp h n.0)
      n.1

-- The first character of a relative path is no slash.
abbrev pub Relative : Text → Type 0
Relative [] = Unit
Relative (c ∷ s) = not_slash c ≡ true

join-Relative : (xs : List Text) → All IsEntry xs → Relative (join (codes "/") xs)
unfolding join
join-Relative [] h = tt
join-Relative ([] ∷ xs) h = cc (h.0.0)
join-Relative ((c ∷ x) ∷ []) h = ground (arith, h.0.1)
join-Relative ((c ∷ x) ∷ y ∷ xs) h = ground (arith, h.0.1)

-- `normpath` gives a relative path, or names after the slashes at the start.
pub data Normal (t : Text) : Type 0 where
  relative : Relative t → Normal t
  doubled : (s : Text) → t ≡ slash ∷ slash ∷ s → Normal t
  rooted : (names : List Text) → All IsName names → t ≡ slash ∷ join (codes "/") names → Normal t

leading-cases : (p : Text) → (leading p ≡ codes "/") ⊎ ((leading p ≡ codes "//") ⊎ (leading p ≡ []))
unfolding leading
leading-cases p = elim (Bool-cases (starts_with p (codes "///"))) [
  | inl three ↦ inl (rw three)
  | inr a ↦ elim (Bool-cases (starts_with p (codes "//"))) [
    | inl two ↦ inr (inl (rw (a, two)))
    | inr b ↦ elim (Bool-cases (starts_with p (codes "/"))) [
      | inl one ↦ inl (rw (a, b, one))
      | inr c ↦ inr (inr (rw (a, b, c)))
    ]
  ]
]

text_or-Relative : (t : Text) → Relative t → Relative (text_or t (codes "."))
unfolding not_slash ℕ_discrete
text_or-Relative [] h = refl
text_or-Relative (c ∷ s) h = h

pub normpath-Normal : (p : Text) → Normal (normpath p)
unfolding normpath
normpath-Normal p = elim (leading-cases p) [
  | inl one ↦ rw one (rooted _ (resolve-IsName [] (split slash p) tt (split-NoSlash p)) refl)
  | inr (inl two) ↦ rw two (doubled _ refl)
  | inr (inr none_) ↦ rw none_ (
      relative (
        text_or-Relative _
          (join-Relative _ (resolve-IsEntry false [] (split slash p) tt (split-NoSlash p)))))
]

split_from-some : (cur s : Text) → no_comps (split_from slash cur s) ≡ false
unfolding split_from
split_from-some cur [] = refl
split_from-some cur (c ∷ s) = ground (arith, split_from-some (cur ++ c ∷ []) s)

join-cons :
    (x : Text) (xs : List Text)
    → no_comps xs ≡ false
    → join (codes "/") (x ∷ xs) ≡ x ++ (slash ∷ join (codes "/") xs)
unfolding join
join-cons x [] h = cc
join-cons x (y ∷ ys) h = refl

pub join-split_from : (cur s : Text) → join (codes "/") (split_from slash cur s) ≡ cur ++ s
unfolding join split_from
join-split_from cur [] = sym (append-nil cur)
join-split_from cur (c ∷ s) = elim (Bool-cases (c == slash)) [
  | inl eq ↦ rw eq (
      join-cons cur (split_from slash [] s) (split_from-some [] s)
      ∙ (ap (λ (t : Text). cur ++ (slash ∷ t)) (join-split_from [] s) ∙ ground (arith, eq)))
  | inr ne ↦ rw ne (join-split_from (cur ++ c ∷ []) s ∙ append_assoc cur (c ∷ []) s)
]
