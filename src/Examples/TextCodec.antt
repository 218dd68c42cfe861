-- ===== src/Examples/TextCodec.antt =====
-- A JSON library small enough to compute with: a value is its own text, and an object's entries are
-- texts and numbers, each written with its length.
use server_application.Common.{
  ℕ, zero, suc, ◌≡◌, refl, ap, ◌∙◌, Bool, if◌then◌else◌, Option, none, some, [], ◌∷◌, ◌++◌, length,
  take, drop, take_exact, drop_exact, ℤ, pos, negsuc, Text, Map, lookup, text_key,
}
use server_application.Json.{Json, Codec}

abbrev pub string : Text → Text
string t = 0 ∷ t

abbrev pub number : ℤ → Text
number (pos n) = 1 ∷ n ∷ []
number (negsuc n) = 2 ∷ n ∷ []

abbrev pub measured : Text → Text
measured t = length t ∷ t

abbrev pub entries_text : Map Text Text → Text
entries_text [] = []
entries_text ((key, v) ∷ es) = measured key ++ (measured v ++ entries_text es)

abbrev pub object : Map Text Text → Text
object es = 3 ∷ length es ∷ entries_text es

-- The first text that is written with its length, and the rest.
abbrev pub split : Text → Text × Text
split [] = ([], [])
split (n ∷ t) = (take n t, drop n t)

abbrev pub entries_of : ℕ → Text → Map Text Text
entries_of zero t = []
entries_of (suc n) t =
    let key = split t in let v = split (key.1) in (key.0, v.0) ∷ entries_of n (v.1)

split-measured : (t u : Text) → split (measured t ++ u) ≡ (t, u)
split-measured t u = rw (take_exact t u, drop_exact t u)

pub entries_of-text : (es : Map Text Text) → entries_of (length es) (entries_text es) ≡ es
entries_of-text [] = refl
entries_of-text ((key, v) ∷ es) =
    ap (λ (p : Text × Text). (p.0, (split (p.1)).0) ∷ entries_of (length es) ((split (p.1)).1))
      (split-measured key (measured v ++ entries_text es))
    ∙ ap (λ (q : Text × Text). (key, q.0) ∷ entries_of (length es) (q.1))
        (split-measured v (entries_text es))
    ∙ ap (λ rest. (key, v) ∷ rest) (entries_of-text es)

abbrev pub entries : Text → Map Text Text
entries (kind ∷ n ∷ t) = entries_of n t
entries _ = []

abbrev pub text_value : Option Text → Text → Option Text
text_value none default = some default
text_value (some (zero ∷ t)) default = some t
text_value (some _) default = none

abbrev pub number_value : Option Text → ℤ → Option ℤ
number_value none default = some default
number_value (some (suc zero ∷ n ∷ [])) default = some (pos n)
number_value (some (suc (suc zero) ∷ n ∷ [])) default = some (negsuc n)
number_value (some _) default = none

pub number_value-number : (n default : ℤ) → number_value (some (number n)) default ≡ some n
number_value-number (pos n) default = refl
number_value-number (negsuc n) default = refl

abbrev pub text_json : Json Text
text_json = record {
  string = string;
  number = number;
  object = object;
  merged = λ es payload. object es;
  value = λ j key default. text_value (lookup key (entries j)) default;
  value-object = λ es key default t e.
      ap (λ (m : Map Text Text). text_value (lookup key m) default) (entries_of-text es)
      ∙ ap (λ v. text_value v default) e;
}

abbrev pub boolean : Bool → Text
boolean b = if b then 4 ∷ [] else 5 ∷ []

-- A text that is sent begins with 0, and no other text is JSON.
abbrev pub dump : Text → Text
dump t = 0 ∷ t

abbrev pub parse : Text → Option Text
parse [] = none
parse (zero ∷ t) = some t
parse (suc n ∷ t) = none

abbrev pub codec : Codec Text
codec = record {
  json = text_json;
  boolean = boolean;
  dump = dump;
  parse = parse;
  int_value = λ j key default. number_value (lookup key (entries j)) default;
  parse-dump = λ j. refl;
  int_value-object = λ es key default n e.
      ap (λ (m : Map Text Text). number_value (lookup key m) default) (entries_of-text es)
      ∙ ap (λ v. number_value v default) e
      ∙ number_value-number n default;
}
