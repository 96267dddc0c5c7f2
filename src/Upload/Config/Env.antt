-- ===== src/Upload/Config/Env.antt =====
-- loadDotEnv, cleanEnvValue and the readers of variables in backend/upload-service/config/config.go.
use Prim.Native.Char.{Char, code}
use anti_fraud_detector.Prelude.{
  ℕ, suc, ◌*◌, ◌%◌, ◌^◌, ◌-◌, String, Bool, ◌≡◌, sym, ap, ◌∙◌, inl, inr, ◌&&◌, ◌||◌, Option, none,
  some, List, [], ◌∷◌, ◌==◌, if◌then◌else◌, eqb, ltb, arith, Option-cases, if_ensures, text_cases,
}
use anti_fraud_detector.Prelude.Int.{ℤ, pos, negsuc}
use anti_fraud_detector.Prelude.Dict.{lookup, insert, lookup-insert}
use anti_fraud_detector.Prelude.Text.{trim_space, has_prefix, trim_prefix}

abbrev pub Env : Type 0
Env = List (String × String)

-- The character that ends a text that starts with `c`, and the text without it.
last_of : Char → String → Char
last_of c String.[] = c
last_of c (String.◌∷◌ d s) = last_of d s

without_last : Char → String → String
without_last c String.[] = ""
without_last c (String.◌∷◌ d s) = String.◌∷◌ c (without_last d s)

-- The body of a text in quotes of one kind.
unquoted : String → Option String
unfolding last_of without_last
unquoted String.[] = none
unquoted (String.◌∷◌ c String.[]) = none
unquoted (String.◌∷◌ c (String.◌∷◌ d s)) =
    if (eqb (code c) 39 || eqb (code c) 34) && eqb (code (last_of d s)) (code c)
    then some (without_last d s)
    else none

-- strings.Cut: what stands before a mark and after it.
cut : String → String → Option (String × String)
cut mark String.[] = if mark == "" then some ("", "") else none
cut mark (String.◌∷◌ c s) =
    let later = cut mark s in
    if has_prefix (String.◌∷◌ c s) mark
    then some ("", trim_prefix (String.◌∷◌ c s) mark)
    else elim later [ none ↦ none | some found ↦ some (String.◌∷◌ c found.0, found.1) ]

unfoldable pub clean_env_value : String → String
unfolding unquoted cut
clean_env_value raw =
    let value = trim_space raw in
    elim (unquoted value) [
      | some body ↦ body
      | none ↦ elim (cut " #" value) [ none ↦ value | some found ↦ trim_space found.0 ]
    ]

-- What a line says: nothing, a variable, or an error.
pub data EnvLine : Type 0 where
  skipped : EnvLine
  variable : String → String → EnvLine
  no_assignment empty_key : EnvLine

unfoldable pub read_line : String → EnvLine
unfolding cut
read_line raw =
    let line = trim_space raw in
    if line == "" || has_prefix line "#"
    then skipped
    else elim (cut "=" (trim_prefix line "export ")) [
      | none ↦ no_assignment
      | some found ↦
          if trim_space found.0 == ""
          then empty_key
          else variable (trim_space found.0) (clean_env_value found.1)
    ]

-- The error, if any: of a line, with its number, or of opening or reading the file.
pub data EnvError : Type 0 where
  not_opened not_read : EnvError
  expected_key_value key_is_empty not_set : ℕ → EnvError

-- os.Open: there is no such file, it cannot be opened, or it has lines, after which the scanner has an
-- error or has none.
pub data EnvFile : Type 0 where
  missing closed : EnvFile
  opened : List String → Bool → EnvFile

unfoldable pub load_lines :
    (String → String → Bool) → Bool → ℕ → List String → Env → Option EnvError × Env
load_lines set_fails broken number [] env = (if broken then some not_read else none, env)
load_lines set_fails broken number (raw ∷ lines) env = elim (read_line raw) [
  | skipped ↦ load_lines set_fails broken (suc number) lines env
  | no_assignment ↦ (some (expected_key_value number), env)
  | empty_key ↦ (some (key_is_empty number), env)
  | variable key value ↦ elim (lookup key env) [
    | some held ↦ load_lines set_fails broken (suc number) lines env
    | none ↦
        let rest = load_lines set_fails broken (suc number) lines (insert key value env) in
        if set_fails key value then (some (not_set number), env) else rest
  ]
]

unfoldable pub load_dot_env : (String → String → Bool) → EnvFile → Env → Option EnvError × Env
load_dot_env set_fails missing env = (none, env)
load_dot_env set_fails closed env = (some not_opened, env)
load_dot_env set_fails (opened lines broken) env = load_lines set_fails broken 1 lines env

-- os.Getenv.
abbrev pub getenv : String → Env → String
getenv key env = elim (lookup key env) [ none ↦ "" | some value ↦ value ]

unfoldable pub get_env : String → String → Env → String
get_env key fallback env = let value = getenv key env in if value == "" then fallback else value

abbrev positive_or : Option ℤ → ℕ → ℕ
positive_or none fallback = fallback
positive_or (some (pos n)) fallback = if ltb 0 n then n else fallback
positive_or (some (negsuc n)) fallback = fallback

-- strconv.Atoi is `atoi`.
unfoldable pub get_int_env : (String → Option ℤ) → String → ℕ → Env → ℕ
get_int_env atoi key fallback env =
    let value = getenv key env in
    if value == "" then fallback else positive_or (atoi value) fallback

unfoldable pub get_bool_env : (String → Option Bool) → String → Bool → Env → Bool
get_bool_env parse_bool key fallback env =
    let value = getenv key env in
    if value == "" then fallback else elim (parse_bool value) [ none ↦ fallback | some b ↦ b ]

-- A duration in nanoseconds, an int64: the product of a great number of seconds wraps around.
abbrev pub signed64 : ℕ → ℤ
signed64 n = let m = n % 2 ^ 64 in if ltb m (2 ^ 63) then pos m else negsuc (2 ^ 64 - 1 - m)

seconds_or : Option ℤ → ℤ → ℤ
seconds_or none fallback = fallback
seconds_or (some (pos n)) fallback = if ltb 0 n then signed64 (n * 1000000000) else fallback
seconds_or (some (negsuc n)) fallback = fallback

unfoldable pub get_duration_env : (String → Option ℤ) → (String → Option ℤ) → String → ℤ → Env → ℤ
unfolding seconds_or
get_duration_env parse_duration atoi key fallback env =
    let value = getenv key env in
    let seconds = seconds_or (atoi value) fallback in
    if value == "" then fallback else elim (parse_duration value) [
      | none ↦ seconds
      | some d ↦ elim d [ pos n ↦ if ltb 0 n then pos n else seconds | negsuc n ↦ seconds ]
    ]

-- Setting a variable that is not there keeps the others.
insert_keeps :
    (key value name held : String) (env : Env)
    → lookup key env ≡ none
    → lookup name env ≡ some held
    → lookup name (insert key value env) ≡ some held
insert_keeps key value name held env absent there = elim (text_cases key name) [
  | inl (same, t) ↦ absurd (ground (arith, sym there ∙ ap (λ k. lookup k env) (sym same) ∙ absent))
  | inr other ↦ ground (arith, other, there, lookup-insert key name value env)
]

line_ensures :
    {Value : Type 0} (Keeps : Value → Type 0) (line : EnvLine)
    {of_skipped of_no_assignment of_empty : Value} {of_variable : String → String → Value}
    → Keeps of_skipped
    → ((key value : String) → Keeps (of_variable key value))
    → Keeps of_no_assignment
    → Keeps of_empty
    → Keeps (elim line [
      | skipped ↦ of_skipped
      | variable key value ↦ of_variable key value
      | no_assignment ↦ of_no_assignment
      | empty_key ↦ of_empty
    ])
line_ensures Keeps skipped a f b c = a
line_ensures Keeps (variable key value) a f b c = f key value
line_ensures Keeps no_assignment a f b c = b
line_ensures Keeps empty_key a f b c = c

load_lines-keeps :
    (set_fails : String → String → Bool) (broken : Bool) (number : ℕ) (lines : List String)
    (env : Env) (name held : String)
    → lookup name env ≡ some held
    → lookup name (load_lines set_fails broken number lines env).1 ≡ some held
unfolding load_lines
load_lines-keeps set_fails broken number [] env name held there = there
load_lines-keeps set_fails broken number (raw ∷ lines) env name held there =
    let later = load_lines-keeps set_fails broken (suc number) lines env name held there in
    line_ensures (λ (result : Option EnvError × Env). lookup name result.1 ≡ some held)
      (read_line raw) later
      (λ key value. elim (Option-cases (lookup key env)) [
        | inl absent ↦ rw absent (
            if_ensures (λ (result : Option EnvError × Env). lookup name result.1 ≡ some held)
              (set_fails key value) there
              (load_lines-keeps set_fails broken (suc number) lines (insert key value env) name held
                (insert_keeps key value name held env absent there)))
        | inr (other, found) ↦ rw found later
      ])
      there there

-- Loading a file keeps the value of every variable that was set before, whatever its lines are, even if the
-- file cannot be opened or read to its end, a line is wrong or a variable cannot be set.
pub load_dot_env-keeps :
    (set_fails : String → String → Bool) (file : EnvFile) (env : Env) (name held : String)
    → lookup name env ≡ some held
    → lookup name (load_dot_env set_fails file env).1 ≡ some held
unfolding load_dot_env
load_dot_env-keeps set_fails missing env name held there = there
load_dot_env-keeps set_fails closed env name held there = there
load_dot_env-keeps set_fails (opened lines broken) env name held there =
    load_lines-keeps set_fails broken 1 lines env name held there
