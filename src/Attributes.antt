-- ===== src/Attributes.antt =====
-- 1. Process attributes/main.c: options that print and change what the system keeps about the process.
-- The system is given: what it keeps is of any type.
pub mod Limits
mod Tests
use os_tasks.Prelude.{
  ℕ, Bool, true, false, Option, none, some, ◌>>=◌, List, [], ◌∷◌, ◌++◌, map, ◌==◌, if◌then◌else◌,
}

-- RLIMIT_FSIZE and RLIMIT_CORE.
pub data Resource : Type 0 where
  rlimit_fsize rlimit_core : Resource

-- `struct rlimit`
pub record Limit : Type 0 where
  pub rlim_cur : ℕ
  pub rlim_max : ℕ

-- The system's calls; `none` is a failure.
pub record System (S : Type 0) : Type 0 where
  pub getuid : S → ℕ
  pub geteuid : S → ℕ
  pub getgid : S → ℕ
  pub getegid : S → ℕ
  pub getpid : S → ℕ
  pub getppid : S → ℕ
  pub getpgrp : S → ℕ
  pub setpgid : S → Option S
  pub getrlimit : Resource → S → Option Limit
  pub setrlimit : Resource → Limit → S → Option S
  pub getcwd : S → Option (List ℕ)
  pub environ : S → List (List ℕ)
  pub putenv : List ℕ → S → Option S

-- What is printed.
pub data Line : Type 0 where
  user_ids : (uid euid gid egid : ℕ) → Line
  process_ids : (pid ppid pgid : ℕ) → Line
  setting_group : Line
  limits : Resource → (soft hard : ℕ) → Line
  setting_limit : Resource → Line
  directory : List ℕ → Line
  variables : Line
  variable : List ℕ → Line
  setting_var : List ℕ → Line
  failure : Line
  invalid_limit : Resource → List ℕ → Line
  missing_argument : ℕ → Line
  unrecognized : ℕ → Line

-- What `strtoul` gives: the value, what `end` points to, and whether `errno` is set.
pub record Number : Type 0 where
  pub value : ℕ
  pub end : List ℕ
  pub errno : Bool

unfoldable pub str_to_rlim : (strtoul : List ℕ → Number) (str : List ℕ) → Option ℕ
str_to_rlim strtoul str =
    let n = strtoul str in
    elim n.end [ (x ∷ xs) ↦ none | [] ↦ if n.errno then none else some n.value ]

-- What `getopt` gives: the option, and `optarg` and `optopt`.
pub record Opt : Type 0 where
  pub opt : ℕ
  pub optarg : List ℕ
  pub optopt : ℕ

-- The letters.
abbrev pub letter_i : ℕ
letter_i = 105

abbrev pub letter_s : ℕ
letter_s = 115

abbrev pub letter_p : ℕ
letter_p = 112

abbrev pub letter_u : ℕ
letter_u = 117

abbrev pub letter_U : ℕ
letter_U = 85

abbrev pub letter_c : ℕ
letter_c = 99

abbrev pub letter_C : ℕ
letter_C = 67

abbrev pub letter_d : ℕ
letter_d = 100

abbrev pub letter_v : ℕ
letter_v = 118

abbrev pub letter_V : ℕ
letter_V = 86

-- `:`
abbrev pub colon : ℕ
colon = 58

module _ {S : Type 0} (sys : System S) where
  unfoldable pub print_ids : S → List Line
  print_ids s = user_ids (sys.getuid s) (sys.geteuid s) (sys.getgid s) (sys.getegid s) ∷ []

  unfoldable pub set_process_group : S → List Line × S
  set_process_group s = elim (sys.setpgid s) [
    | none ↦ (setting_group ∷ failure ∷ [], s)
    | some s' ↦ (setting_group ∷ [], s')
  ]

  unfoldable pub print_process_ids : S → List Line
  print_process_ids s = process_ids (sys.getpid s) (sys.getppid s) (sys.getpgrp s) ∷ []

  unfoldable pub print_resource_limit : Resource → S → List Line
  print_resource_limit res s = elim (sys.getrlimit res s) [
    | none ↦ failure ∷ []
    | some lim ↦ limits res lim.rlim_cur lim.rlim_max ∷ []
  ]

  unfoldable pub set_resource_limit : Resource → (val : ℕ) → S → List Line × S
  set_resource_limit res val s = elim (sys.getrlimit res s) [
    | none ↦ (setting_limit res ∷ failure ∷ [], s)
    | some lim ↦ elim (sys.setrlimit res (record lim { rlim_cur = val }) s) [
      | none ↦ (setting_limit res ∷ failure ∷ [], s)
      | some s' ↦ (setting_limit res ∷ [], s')
    ]
  ]

  unfoldable pub print_working_directory : S → List Line
  print_working_directory s = elim (sys.getcwd s) [
    | none ↦ failure ∷ []
    | some path ↦ directory path ∷ []
  ]

  unfoldable pub print_vars : S → List Line
  print_vars s = variables ∷ map variable (sys.environ s)

  -- Whether `strdup` gives memory is the first argument.
  unfoldable pub put_var : (copied : Bool) (var : List ℕ) → S → List Line × S
  put_var false var s = (setting_var var ∷ failure ∷ [], s)
  put_var true var s = elim (sys.putenv var s) [
    | none ↦ (setting_var var ∷ failure ∷ [], s)
    | some s' ↦ (setting_var var ∷ [], s')
  ]

  -- The cases 'U' and 'C'.
  unfoldable pub limit_option :
      (strtoul : List ℕ → Number) (res : Resource) (optarg : List ℕ) → S → List Line × S
  limit_option strtoul res optarg s = elim (str_to_rlim strtoul optarg) [
    | none ↦ (invalid_limit res optarg ∷ [], s)
    | some val ↦ set_resource_limit res val s
  ]

  -- The `switch` of `main`.
  unfoldable pub run_option : (strtoul : List ℕ → Number) (copied : Bool) → Opt → S → List Line × S
  run_option strtoul copied o s =
      if o.opt == letter_i
      then (print_ids s, s)
      else if o.opt == letter_s
      then set_process_group s
      else if o.opt == letter_p
      then (print_process_ids s, s)
      else if o.opt == letter_u
      then (print_resource_limit rlimit_fsize s, s)
      else if o.opt == letter_U
      then limit_option strtoul rlimit_fsize o.optarg s
      else if o.opt == letter_c
      then (print_resource_limit rlimit_core s, s)
      else if o.opt == letter_C
      then limit_option strtoul rlimit_core o.optarg s
      else if o.opt == letter_d
      then (print_working_directory s, s)
      else if o.opt == letter_v
      then (print_vars s, s)
      else if o.opt == letter_V
      then put_var copied o.optarg s
      else if o.opt == colon
      then (missing_argument o.optopt ∷ [], s)
      else (unrecognized o.optopt ∷ [], s)

  -- The loop of `main`, by what `getopt` gives before -1, each with whether `strdup` gives memory.
  unfoldable pub run_options : (strtoul : List ℕ → Number) → List (Bool × Opt) → S → List Line × S
  run_options strtoul [] s = ([], s)
  run_options strtoul ((copied, o) ∷ opts) s =
      let (lines, s') = run_option strtoul copied o s in
      let (more, s'') = run_options strtoul opts s' in (lines ++ more, s'')
