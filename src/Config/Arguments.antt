-- ===== src/Config/Arguments.antt =====
-- The search for `-config` among the arguments of cmd/mandau-agent/main.go, and `filterConfigArgs`.
use mandau.Base.{
  ◌≡◌, refl, ap, String, Bool, true, false, ◌||◌, List, [], ◌∷◌, if◌then◌else◌, ◌==◌, All,
}
use mandau.Base.Text.{has_prefix, trim_prefix}

-- The argument names the flag `config`, whose value is the next argument.
abbrev is_config_flag : String → Bool
is_config_flag arg = arg == "--config" || arg == "-config"

-- The argument holds the flag `config` and its value.
abbrev is_config_setting : String → Bool
is_config_setting arg = has_prefix arg "--config=" || has_prefix arg "-config="

unfoldable pub filter_config_args : List String → List String
filter_config_args [] = []
filter_config_args (arg ∷ []) =
    if is_config_flag arg then [] else if is_config_setting arg then [] else arg ∷ []
filter_config_args (arg ∷ next ∷ args) =
    let after_next = filter_config_args args in
    let after_arg = filter_config_args (next ∷ args) in
    if is_config_flag arg
    then after_next
    else if is_config_setting arg
    then after_arg
    else arg ∷ after_arg

abbrev setting_value : String → String
setting_value arg =
    if has_prefix arg "--config=" then trim_prefix arg "--config=" else trim_prefix arg "-config="

-- The configuration file that the arguments name, and else the default.
unfoldable pub find_config_arg : List String → String → String
find_config_arg [] default_path = default_path
find_config_arg (arg ∷ []) default_path =
    if is_config_setting arg then setting_value arg else default_path
find_config_arg (arg ∷ next ∷ args) default_path =
    let rest = find_config_arg (next ∷ args) default_path in
    if is_config_flag arg then next else if is_config_setting arg then setting_value arg else rest

-- No argument sets the flag `config`.
abbrev Plain : List String → Type 0
Plain args = All (λ arg. (is_config_flag arg ≡ false) × (is_config_setting arg ≡ false)) args

Plain-if :
    (a b : Bool) (x y z : List String)
    → Plain x
    → Plain y
    → (a ≡ false → b ≡ false → Plain z)
    → Plain (if a then x else if b then y else z)
Plain-if true b x y z p q r = p
Plain-if false true x y z p q r = q
Plain-if false false x y z p q r = r refl refl

filter_config_args-Plain : (args : List String) → Plain (filter_config_args args)
unfolding filter_config_args
filter_config_args-Plain [] = tt
filter_config_args-Plain (arg ∷ []) =
    Plain-if (is_config_flag arg) (is_config_setting arg) [] [] (arg ∷ []) tt tt λ a b. ((a, b), tt)
filter_config_args-Plain (arg ∷ next ∷ args) =
    Plain-if (is_config_flag arg) (is_config_setting arg) (filter_config_args args)
      (filter_config_args (next ∷ args)) (arg ∷ filter_config_args (next ∷ args))
      (filter_config_args-Plain args) (filter_config_args-Plain (next ∷ args))
      λ a b. ((a, b), filter_config_args-Plain (next ∷ args))

filter_config_args_of_Plain : (args : List String) → Plain args → filter_config_args args ≡ args
unfolding filter_config_args
filter_config_args_of_Plain [] h = refl
filter_config_args_of_Plain (arg ∷ []) ((a, b), h) = rw (a, b) refl
filter_config_args_of_Plain (arg ∷ next ∷ args) ((a, b), h) =
    rw (a, b) (ap (λ l. arg ∷ l) (filter_config_args_of_Plain (next ∷ args) h))

find_config_arg_of_Plain :
    (args : List String) (d : String) → Plain args → find_config_arg args d ≡ d
unfolding find_config_arg
find_config_arg_of_Plain [] d h = refl
find_config_arg_of_Plain (arg ∷ []) d ((a, b), h) = rw b refl
find_config_arg_of_Plain (arg ∷ next ∷ args) d ((a, b), h) =
    rw (a, b) (find_config_arg_of_Plain (next ∷ args) d h)

-- Of the arguments that are left for the other flags, none sets a configuration file, whatever the
-- arguments were; filtering them once more takes nothing away.
find_config_arg-filter :
    (args : List String) (default_path : String)
    → (find_config_arg (filter_config_args args) default_path ≡ default_path)
      × (filter_config_args (filter_config_args args) ≡ filter_config_args args)
find_config_arg-filter args default_path = (
  find_config_arg_of_Plain (filter_config_args args) default_path (filter_config_args-Plain args),
  filter_config_args_of_Plain (filter_config_args args) (filter_config_args-Plain args),
)
