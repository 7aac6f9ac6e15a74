-- ===== src/Generator/Examples/StrUtil.antt =====
-- Functions that do what strutil.h documents, for tests.
use Prim.Native.Char.{Char, code}
use Prim.Native.String.{len, slice}
use text.Mathlib.Text.{◌==◌}
use text.Mathlib.TextLemmas.{append_assoc, cons-append, nil-append, append-nil}
use text.Mathlib.TextPositions.{eq_refl, len-append, slice-append_left, slice-append_right}
use platform_external_nos_ho.Base as N
use platform_external_nos_ho.Base.{
  ℕ, zero, suc, ◌+◌, ◌-◌, ◌/◌, ◌%◌, ◌≡◌, ◌≢◌, refl, sym, ap, ◌∙◌, List, [], ◌∷◌, Bool, true, false,
  ◌||◌, ltb, if◌then◌else◌, arith, Bool-cases, inl, inr,
}
use platform_external_nos_ho.Generator.Text.{String, ◌<>◌, StrUtil, occurs, IsSplit, IsStrUtil}

keep : String → List String → List String
keep String.[] rest = rest
keep (String.◌∷◌ c s) rest = String.◌∷◌ c s ∷ rest

abbrev pieces : Char → String → String → List String
pieces c current String.[] = keep current []
pieces c current (String.◌∷◌ e s) =
    let same = N.◌==◌ (code c) (code e) in
    let rest = pieces c (if same then "" else current <> String.◌∷◌ e "") s in
    if same then keep current rest else rest

split_at : String → String → List String
split_at s String.[] = s ∷ []
split_at s (String.◌∷◌ c d) = pieces c "" s

moved :
    (current s : String) (e : Char) → (current <> String.◌∷◌ e "") <> s ≡ current <> String.◌∷◌ e s
moved current s e =
    append_assoc current (String.◌∷◌ e "") s
    ∙ ap (λ t. current <> t) (cons-append e "" s ∙ ap (String.◌∷◌ e) (nil-append s))

unbroken_rest :
    (c e : Char) (s : String)
    → N.◌==◌ (code c) (code e) ≡ false
    → occurs c (String.◌∷◌ e s) ≡ false
    → occurs c s ≡ false
unbroken_rest c e s other h = ground (arith, other, h)

pieces-other :
    (c e : Char) (current s : String)
    → N.◌==◌ (code c) (code e) ≡ false
    → pieces c current (String.◌∷◌ e s) ≡ pieces c (current <> String.◌∷◌ e "") s
pieces-other c e current s other = rw other

not_same :
    (c e : Char) (s : String) → occurs c (String.◌∷◌ e s) ≡ false → N.◌==◌ (code c) (code e) ≡ false
not_same c e s h = ground arith

pieces-unbroken :
    (c : Char) (current s : String)
    → occurs c s ≡ false
    → pieces c current s ≡ keep (current <> s) []
pieces-unbroken c current String.[] h = ap (λ t. keep t []) (sym (append-nil current))
pieces-unbroken c current (String.◌∷◌ e s) h =
    let other = not_same c e s h in
    pieces-other c e current s other
    ∙ pieces-unbroken c (current <> String.◌∷◌ e "") s (unbroken_rest c e s other h)
    ∙ ap (λ t. keep t []) (moved current s e)

pieces-delimiter :
    (c : Char) (current rest : String)
    → pieces c current (String.◌∷◌ c rest) ≡ keep current (pieces c "" rest)
pieces-delimiter c current rest =
    let same : N.◌==◌ (code c) (code c) ≡ true = ground arith in rw same

pieces-first :
    (c : Char) (current s rest : String)
    → occurs c s ≡ false
    → pieces c current (s <> String.◌∷◌ c rest) ≡ keep (current <> s) (pieces c "" rest)
pieces-first c current String.[] rest h =
    ap (pieces c current) (nil-append (String.◌∷◌ c rest))
    ∙ pieces-delimiter c current rest
    ∙ ap (λ t. keep t (pieces c "" rest)) (sym (append-nil current))
pieces-first c current (String.◌∷◌ e s) rest h =
    let other = not_same c e s h in
    ap (pieces c current) (cons-append e s (String.◌∷◌ c rest))
    ∙ pieces-other c e current (s <> String.◌∷◌ c rest) other
    ∙ pieces-first c (current <> String.◌∷◌ e "") s rest (unbroken_rest c e s other h)
    ∙ ap (λ t. keep t (pieces c "" rest)) (moved current s e)

keep-not_empty : (s : String) (rest : List String) → s ≢ "" → keep s rest ≡ s ∷ rest
unfolding keep
keep-not_empty String.[] rest h = absurd (h refl)
keep-not_empty (String.◌∷◌ c s) rest h = refl

split_at-IsSplit : IsSplit split_at
unfolding split_at
split_at-IsSplit = record {
  of_piece = λ c s piece.
      pieces-unbroken c "" s piece.unbroken
      ∙ ap (λ t. keep t []) (nil-append s)
      ∙ keep-not_empty s [] piece.not_empty;
  of_piece_first = λ c s rest piece.
      ap (λ t. pieces c "" (s <> t)) (cons-append c "" rest ∙ ap (String.◌∷◌ c) (nil-append rest))
      ∙ pieces-first c "" s rest piece.unbroken
      ∙ ap (λ t. keep t (pieces c "" rest)) (nil-append s)
      ∙ keep-not_empty s (pieces c "" rest) piece.not_empty;
}

join : List String → String → String
join [] d = ""
join (s ∷ []) d = s
join (s ∷ t ∷ rest) d = s <> d <> join (t ∷ rest) d

strip : String → String → String
strip s suffix =
    let front = len s - len suffix in if slice s front (len s) == suffix then slice s 0 front else s

-- Decimal, of a number below ten to the fuel.
decimal : ℕ → ℕ → String
decimal zero n = ""
decimal (suc fuel) n =
    let rest = decimal fuel (n / 10) in
    let digit = slice "0123456789" (n % 10) (n % 10 + 1) in
    if ltb n 10 then digit else rest <> digit

unfoldable pub str_util : StrUtil
unfolding split_at join strip decimal keep
str_util = record {
  split_string_using = split_at;
  split = split_at;
  join_strings = join;
  strip_suffix_string = strip;
  to_string = decimal 10;
}

strip-append : (s suffix : String) → strip (s <> suffix) suffix ≡ s
unfolding strip
strip-append s suffix =
    let front : len (s <> suffix) - len suffix ≡ len s = omega (arith, len-append s suffix) in
    rw (
      front,
      len-append s suffix,
      slice-append_right s suffix,
      eq_refl suffix,
      slice-append_left s suffix,
    )

pub str_util-IsStrUtil : IsStrUtil str_util
unfolding str_util join
str_util-IsStrUtil = record {
  split_string_using_splits = split_at-IsSplit;
  split_splits = split_at-IsSplit;
  join_none = λ d. refl;
  join_one = λ s d. refl;
  join_more = λ s t d rest. refl;
  strip = strip-append;
}
