-- ===== src/Client/StatusName/Examples.antt =====
-- Names of status codes, with numbers in strokes.
use Prim.Native.String.{String, count}
use text.Mathlib.TextEquality.{eq_iff}
use text.Mathlib.TextLemmas.{length-cons}
use platform_external_nos_ho.Base.{ℕ, zero, suc, ◌≡◌, ◌≢◌, refl, sym, ap, ◌∙◌, arith}
use platform_external_nos_ho.Client.StatusName.{status_code_string}
use platform_external_nos_ho.Client.StatusName.Laws.{status_code_string_injective}

strokes : ℕ → String
strokes zero = ""
strokes (suc n) = String.◌∷◌ "1" (strokes n)

count-strokes : (n : ℕ) → count (strokes n) ≡ n
unfolding strokes
count-strokes zero = refl
count-strokes (suc n) = length-cons "1" (strokes n) ∙ ap suc (count-strokes n)

strokes-inj : (m n : ℕ) → strokes m ≡ strokes n → m ≡ n
strokes-inj m n h = sym (count-strokes m) ∙ ap count h ∙ count-strokes n

line_five : status_code_string strokes 0x70000005 ≡ "APP_LINE_NUMBER 11111"
unfolding status_code_string strokes
line_five = refl

bogus : status_code_string strokes 1 ≡ "APP_ERROR_BOGUS_ARGS"
unfolding status_code_string
bogus = refl

line_known : status_code_string strokes 0x70000005 ≢ "unknown"
line_known = ground (arith, line_five, eq_iff "APP_LINE_NUMBER 11111" "unknown")

status_code_string_injective_example : ◌≡◌ {A = ℕ} 0x70000005 1879048197
status_code_string_injective_example =
    status_code_string_injective strokes 0x70000005 0x70000005 strokes-inj (omega arith)
      (omega arith) line_known refl
