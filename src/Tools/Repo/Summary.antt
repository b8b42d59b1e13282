-- ===== src/Tools/Repo/Summary.antt =====
-- src/tools/_local_repo_impl.py: the counts that `_count_token` reads.
use Prim.Native.Nat.{◌<◌, ◌≤◌}
use mathlib.Core.List.{foldl}
use agentic_temporal_wf.Base.{
  ℕ, Bool, true, false, Option, none, some, [], ◌∷◌, ◌++◌, ◌≡◌, refl, sym, ap, ◌∙◌, arith, all,
  is_some, get_or, or_else, ◌==◌, ◌&&◌, if◌then◌else◌, length, Option-cases, Bool-cases, inl, inr,
  nat_eq, ◌+◌, ◌*◌, ◌-◌, not,
}
use agentic_temporal_wf.Base.Text.{Text, codes, is_space, show, to_int}
use agentic_temporal_wf.Base.Text.{to_int-show, show-digits, show-length, ascii_digit, digit}
use agentic_temporal_wf.Base.Regex.{literal, same, plus, search_from}
use agentic_temporal_wf.Base.Regex.Laws.{plus_longest, repeat-Took}
use agentic_temporal_wf.Hooks.Restrict.Pattern.{literal-append}
use agentic_temporal_wf.Base.Text.Decimal.{Decimal, is_decimal, int_of_digits}
use agentic_temporal_wf.Tools.Repo.{count_pattern, count_token}

-- The decimal digits of Unicode include those of ASCII, with their values, and no space.
pub record IsDecimal (value : Decimal) : Type 0 where
  pub ascii : (d : ℕ) → d < 10 → value (48 + d) ≡ some d
  pub no_space : (c : ℕ) → is_space c ≡ true → value c ≡ none

-- The rest of a number, and the white space after it: what comes next is there, and is not `c`.
abbrev other_after_space : ℕ → Text → Bool
other_after_space c [] = false
other_after_space c (e ∷ s) = if is_space e then other_after_space c s else not (e == c)

abbrev other_after_number : Decimal → ℕ → Text → Bool
other_after_number value c [] = false
other_after_number value c (e ∷ s) =
    if is_decimal value e then other_after_number value c s else other_after_space c (e ∷ s)

-- Each number in a text is followed, after any white space, by something that does not begin with
-- `c`, such as `1 failed, ` or `[100%]` where `c` is the `p` of `passed`.
abbrev pub others : Decimal → ℕ → Text → Bool
others value c [] = true
others value c (e ∷ s) =
    (if is_decimal value e then other_after_number value c s else true) && others value c s

no_token_after_space :
    (c : ℕ) (s tail spaces rest : Text)
    → is_space c ≡ false
    → other_after_space c s ≡ true
    → all is_space spaces ≡ true
    → s ++ tail ≡ spaces ++ c ∷ rest
    → ⊥
no_token_after_space c [] tail spaces rest n o a e = cc (o)
no_token_after_space c (d ∷ s) tail [] rest n o a e =
    let h : d ≡ c = cc (e) in ground (arith, h, n, o)
no_token_after_space c (d ∷ s) tail (f ∷ spaces) rest n o a e =
    let h : d ≡ f = cc (e) in
    let t : s ++ tail ≡ spaces ++ c ∷ rest = cc (e) in
    let space : is_space d ≡ true = rw h (ground (arith, a)) in
    no_token_after_space c s tail spaces rest n (ground (arith, space, o)) (ground (arith, a)) t

no_token_after_number :
    (value : Decimal) (v : IsDecimal value) (c : ℕ) (s tail digits spaces rest : Text)
    → is_space c ≡ false
    → other_after_number value c s ≡ true
    → all (is_decimal value) digits ≡ true
    → all is_space spaces ≡ true
    → 1 ≤ length spaces
    → s ++ tail ≡ digits ++ (spaces ++ c ∷ rest)
    → ⊥
no_token_after_number value v c [] tail digits spaces rest n o a b l e = cc (o)
no_token_after_number value v c (d ∷ s) tail [] [] rest n o a b l e = omega (arith, l)
no_token_after_number value v c (d ∷ s) tail [] (f ∷ spaces) rest n o a b l e =
    let h : d ≡ f = cc (e) in
    let space : is_space d ≡ true = rw h (ground (arith, b)) in
    let no_digit : is_decimal value d ≡ false = ap is_some (v.no_space d space) in
    no_token_after_space c (d ∷ s) tail (f ∷ spaces) rest n (rw no_digit at o) b e
no_token_after_number value v c (d ∷ s) tail (f ∷ digits) spaces rest n o a b l e =
    let h : d ≡ f = cc (e) in
    let t : s ++ tail ≡ digits ++ (spaces ++ c ∷ rest) = cc (e) in
    let a_digit : is_decimal value d ≡ true = rw h (ground (arith, a)) in
    no_token_after_number value v c s tail digits spaces rest n (rw a_digit at o)
      (ground (arith, a)) b l t

literal-starts :
    (c : ℕ) (token s : Text) (k : Text → Option Text) {found : Text}
    → literal same (c ∷ token) s k ≡ some found
    → (rest : Text) × (s ≡ c ∷ rest)
unfolding literal same
literal-starts c token [] k h = cc
literal-starts c token (d ∷ s) k h = elim (Bool-cases (c == d)) [
  | inl e ↦ (s, ground (arith, e))
  | inr e ↦ let q = rw e at h in cc (q)
]

-- What a match has read: digits, white space and the first letter of the token.
count_pattern-reads :
    (value : Decimal) (token : Text) (c : ℕ) (s : Text) {found : Text}
    → count_pattern value (c ∷ token) s ≡ some found
    → (digits : Text) × (spaces : Text) × (rest : Text) × (s ≡ digits ++ (spaces ++ c ∷ rest))
      × (all (is_decimal value) digits ≡ true)
      × (1 ≤ length digits)
      × (all is_space spaces ≡ true)
      × (1 ≤ length spaces)
unfolding count_pattern plus
count_pattern-reads value token c s h =
    let t = repeat-Took (is_decimal value) _ 1 (length s) [] s h in
    let u = repeat-Took is_space _ 1 (length t.rest) [] t.rest t.went_on in
    let (rest, starts) = literal-starts c token u.rest _ u.went_on in
    (
      t.run,
      u.run,
      rest,
      t.whole ∙ ap (λ (x : Text). t.run ++ x) (u.whole ∙ ap (λ (x : Text). u.run ++ x) starts),
      t.of_class,
      t.at_least,
      u.of_class,
      u.at_least,
    )

no_match :
    (value : Decimal) (v : IsDecimal value) (c d : ℕ) (s tail digits spaces rest : Text)
    → is_space c ≡ false
    → others value c (d ∷ s) ≡ true
    → all (is_decimal value) digits ≡ true
    → 1 ≤ length digits
    → all is_space spaces ≡ true
    → 1 ≤ length spaces
    → d ∷ (s ++ tail) ≡ digits ++ (spaces ++ c ∷ rest)
    → ⊥
no_match value v c d s tail [] spaces rest n o a l b m e = omega (arith, l)
no_match value v c d s tail (f ∷ digits) spaces rest n o a l b m e =
    let h : d ≡ f = cc (e) in
    let t : s ++ tail ≡ digits ++ (spaces ++ c ∷ rest) = cc (e) in
    let a_digit : is_decimal value d ≡ true = rw h (ground (arith, a)) in
    no_token_after_number value v c s tail digits spaces rest n (ground (arith, a_digit, o))
      (ground (arith, a)) b m t

-- No match begins in a text whose numbers are followed by something else.
count_pattern-others :
    (value : Decimal) (v : IsDecimal value) (token : Text) (c d : ℕ) (s tail : Text)
    → is_space c ≡ false
    → others value c (d ∷ s) ≡ true
    → count_pattern value (c ∷ token) (d ∷ (s ++ tail)) ≡ none
count_pattern-others value v token c d s tail n o =
    elim (Option-cases (count_pattern value (c ∷ token) (d ∷ (s ++ tail)))) [
      | inl nothing ↦ nothing
      | inr (found, h) ↦
          let (digits, spaces, rest, whole, a, l, b, m) =
            count_pattern-reads value token c (d ∷ (s ++ tail)) h in
          absurd (no_match value v c d s tail digits spaces rest n o a l b m whole)
    ]

-- The search passes over such a text.
search_from-others :
    (value : Decimal) (v : IsDecimal value) (token : Text) (c : ℕ) (before s : Text) {digits : Text}
    → is_space c ≡ false
    → others value c before ≡ true
    → count_pattern value (c ∷ token) s ≡ some digits
    → search_from (count_pattern value (c ∷ token)) (before ++ s) ≡ some digits
unfolding search_from
search_from-others value v token c [] [] n h e = e
search_from-others value v token c [] (d ∷ s) n h e = ground (arith, e)
search_from-others value v token c (d ∷ before) s n h e =
    let rec = search_from-others value v token c before s n (ground (arith, h)) e in
    rw (count_pattern-others value v token c d before s n h) rec

int_of_digits-ascii :
    (value : Decimal) (v : IsDecimal value) (s : Text) (acc : ℕ)
    → all ascii_digit s ≡ true
    → int_of_digits value acc s ≡ foldl digit acc s
unfolding int_of_digits
int_of_digits-ascii value v [] acc h = refl
int_of_digits-ascii value v (c ∷ s) acc h =
    let at_ : value (48 + (c - 48)) ≡ some (c - 48) = v.ascii (c - 48) (ground arith) in
    let same_ : 48 + (c - 48) ≡ c = ground arith in
    let rec = int_of_digits-ascii value v s (acc * 10 + (c - 48)) (ground arith) in
    ap (λ (o : Option ℕ). int_of_digits value (acc * 10 + get_or o 0) s)
      (ap value (sym same_) ∙ at_)
    ∙ rec

-- ASCII digits are digits.
all-decimal :
    (value : Decimal) (v : IsDecimal value) (s : Text)
    → all ascii_digit s ≡ true
    → all (is_decimal value) s ≡ true
all-decimal value v [] h = refl
all-decimal value v (c ∷ s) h =
    let at_ : value (48 + (c - 48)) ≡ some (c - 48) = v.ascii (c - 48) (ground arith) in
    let same_ : 48 + (c - 48) ≡ c = ground arith in
    let found : value c ≡ some (c - 48) = ap value (sym same_) ∙ at_ in
    rw found (all-decimal value v s (ground arith))

-- The optional letter at the end of the pattern changes nothing.
optional :
    (s digits : Text)
    → or_else (literal same (codes "s") s (λ _. some digits)) (some digits) ≡ some digits
unfolding literal
optional [] digits = refl
optional (c ∷ s) digits = ground arith

-- `3 passed` and what follows.
count_pattern-show :
    (value : Decimal) (v : IsDecimal value) (token rest : Text) (c n : ℕ)
    → is_space c ≡ false
    → count_pattern value (c ∷ token) (show n ++ (32 ∷ (c ∷ token ++ rest))) ≡ some (show n)
unfolding count_pattern
count_pattern-show value v token rest c n not_space =
    plus_longest (is_decimal value) _ (show n) (32 ∷ (c ∷ token ++ rest))
      (all-decimal value v (show n) (show-digits n)) (show-length n)
      (ap is_some (v.no_space 32 refl))
      (plus_longest is_space _ (32 ∷ []) (c ∷ token ++ rest) refl (omega arith) not_space
        (literal-append (c ∷ token) rest _ ∙ optional rest (show n)))

-- The count of the first number in the output that white space and the token follow: each number
-- before it is followed, after any white space, by something that does not begin as the token does;
-- whatever comes after.
pub count_token-show :
    (value : Decimal) (v : IsDecimal value) (before token rest : Text) (c n : ℕ)
    → others value c before ≡ true
    → is_space c ≡ false
    → count_token value (before ++ (show n ++ (32 ∷ (c ∷ token ++ rest)))) (c ∷ token) ≡ n
unfolding count_token to_int
count_token-show value v before token rest c n clear not_space =
    ap (λ (o : Option Text). elim o [ some digits ↦ int_of_digits value 0 digits | none ↦ 0 ])
      (search_from-others value v token c before _ not_space clear
        (count_pattern-show value v token rest c n not_space))
    ∙ int_of_digits-ascii value v (show n) 0 (show-digits n)
    ∙ to_int-show n
