-- ===== src/Generator/Text.antt =====
-- The text that the generator handles: C++ strings, and what it takes from the protocol buffers' strutil.h.
use Prim.Native.Char.{Char, code}
use platform_external_nos_ho.Base.{
  ℕ, ◌≡◌, refl, ◌≢◌, List, [], ◌∷◌, Bool, false, ◌||◌, ◌==◌, Option, none, some,
}
pub use Prim.Native.String.{String, ◌++◌ as ◌<>◌}

-- `SplitStringUsing` and `Split`, `JoinStrings`, `StripSuffixString`, and `std::to_string`.
pub record StrUtil : Type 0 where
  pub split_string_using : String → String → List String
  pub split : String → String → List String
  pub join_strings : List String → String → String
  pub strip_suffix_string : String → String → String
  pub to_string : ℕ → String

-- Whether a character occurs in a text.
abbrev pub occurs : Char → String → Bool
occurs c String.[] = false
occurs c (String.◌∷◌ e s) = (code c == code e) || occurs c s

-- A piece between two delimiters: it is not empty, and has none in it.
pub record IsPiece (delimiter : Char) (s : String) : Type 0 where
  pub not_empty : s ≢ ""
  pub unbroken : occurs delimiter s ≡ false

-- What splitting at a character gives, as strutil.h documents it.
pub record IsSplit (split : String → String → List String) : Type 0 where
  pub of_piece : (c : Char) (s : String) → IsPiece c s → split s (String.◌∷◌ c "") ≡ s ∷ []
  pub of_piece_first :
      (c : Char) (s rest : String)
      → IsPiece c s
      → split (s <> String.◌∷◌ c "" <> rest) (String.◌∷◌ c "") ≡ s ∷ split rest (String.◌∷◌ c "")

-- What strutil.h documents of these functions.
pub record IsStrUtil (u : StrUtil) : Type 0 where
  pub split_string_using_splits : IsSplit u.split_string_using
  pub split_splits : IsSplit u.split
  pub join_none : (d : String) → u.join_strings [] d ≡ ""
  pub join_one : (s d : String) → u.join_strings (s ∷ []) d ≡ s
  pub join_more :
      (s t d : String) (rest : List String)
      → u.join_strings (s ∷ t ∷ rest) d ≡ s <> d <> u.join_strings (t ∷ rest) d
  pub strip : (s suffix : String) → u.strip_suffix_string (s <> suffix) suffix ≡ s

-- `pop_back` of a vector, which is undefined on an empty one.
abbrev pub pop_back : List String → Option (List String)
pop_back [] = none
pop_back (s ∷ []) = some []
pop_back (s ∷ t ∷ rest) = elim (pop_back (t ∷ rest)) [ none ↦ none | some front ↦ some (s ∷ front) ]

-- `back` of a vector, which is undefined on an empty one.
abbrev pub back : List String → Option String
back [] = none
back (s ∷ []) = some s
back (s ∷ t ∷ rest) = back (t ∷ rest)

-- The C++ monad of a program that may be undefined.
infixl 5 ◌>>=◌
abbrev pub ◌>>=◌ {ℓ κ} : {A : Type ℓ} {B : Type κ} → Option A → (A → Option B) → Option B
none >>= f = none
some a >>= f = f a

pub >>=-eq-some {ℓ κ} :
    {A : Type ℓ} {B : Type κ} (m : Option A) (f : A → Option B) {b : B}
    → (m >>= f) ≡ some b
    → (a : A) × (m ≡ some a) × (f a ≡ some b)
>>=-eq-some none f h = cc
>>=-eq-some (some a) f h = (a, refl, h)
