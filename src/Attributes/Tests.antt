-- ===== src/Attributes/Tests.antt =====
-- Runs of the program.
use os_tasks.Prelude.{
  ℕ, ◌≡◌, refl, ap, ◌∙◌, arith, Bool, true, false, Option, none, some, List, [], ◌∷◌, ◌++◌, ltb,
  if◌then◌else◌, length,
}
use os_tasks.Attributes.{
  Resource, rlimit_fsize, rlimit_core, Limit, System, setting_limit, limits, Number, str_to_rlim,
  Opt, letter_i, letter_s, colon, print_resource_limit, run_options, run_option, set_process_group,
  setting_group, failure, missing_argument,
}
use os_tasks.Attributes.Limits.{KeepsLimits, other_than, setting, showing, run_options_limits}

-- The two limits.
record Kept : Type 0 where
  fsize : Limit
  core : Limit

abbrev getrlimit : Resource → Kept → Option Limit
getrlimit rlimit_fsize s = some s.fsize
getrlimit rlimit_core s = some s.core

abbrev stored : Resource → Limit → Kept → Kept
stored rlimit_fsize lim s = record s { fsize = lim }
stored rlimit_core lim s = record s { core = lim }

-- A soft limit above the hard one is refused.
abbrev setrlimit : Resource → Limit → Kept → Option Kept
setrlimit res lim s = if ltb lim.rlim_max lim.rlim_cur then none else some (stored res lim s)

abbrev system : System Kept
system = record {
  getuid = λ s. 1000;
  geteuid = λ s. 1000;
  getgid = λ s. 100;
  getegid = λ s. 100;
  getpid = λ s. 5;
  getppid = λ s. 4;
  getpgrp = λ s. 4;
  setpgid = λ s. none;
  getrlimit = getrlimit;
  setrlimit = setrlimit;
  getcwd = λ s. some (47 ∷ []);
  environ = λ s. [];
  putenv = λ var s. some s;
}

setrlimit_stores :
    (res : Resource) (lim : Limit) (s s' : Kept)
    → setrlimit res lim s ≡ some s'
    → some s' ≡ some (stored res lim s)
setrlimit_stores res lim s s' e = ground (arith, e)

stored_get : (res : Resource) (lim : Limit) (s : Kept) → getrlimit res (stored res lim s) ≡ some lim
stored_get rlimit_fsize lim s = refl
stored_get rlimit_core lim s = refl

stored_other :
    (res : Resource) (lim : Limit) (s : Kept)
    → getrlimit (other_than res) (stored res lim s) ≡ getrlimit (other_than res) s
stored_other rlimit_fsize lim s = refl
stored_other rlimit_core lim s = refl

-- The limit of a resource after `setrlimit`.
after_set :
    (res which : Resource) (lim : Limit) (s s' : Kept)
    → setrlimit res lim s ≡ some s'
    → getrlimit which s' ≡ getrlimit which (stored res lim s)
after_set res which lim s s' e =
    ap (λ (o : Option Kept). elim o [ none ↦ none | some k ↦ getrlimit which k ])
      (setrlimit_stores res lim s s' e)

system-KeepsLimits : KeepsLimits system
system-KeepsLimits = record {
  set_get = λ res lim s s' e. after_set res res lim s s' e ∙ stored_get res lim s;
  set_other = λ res lim s s' e. after_set res (other_than res) lim s s' e ∙ stored_other res lim s;
}

abbrev kept : Kept
kept = record {
  fsize = record { rlim_cur = 10; rlim_max = 20 };
  core = record { rlim_cur = 0; rlim_max = 30 };
}

-- The value is the length of the text.
abbrev strtoul : List ℕ → Number
strtoul text = record { value = length text; end = []; errno = false }

valid : str_to_rlim strtoul (49 ∷ 50 ∷ []) ≡ some 2
unfolding str_to_rlim
valid = refl

-- `-i` is between.
abbrev between : List (Bool × Opt)
between = (true, record { opt = letter_i; optarg = []; optopt = 0 }) ∷ []

run_options_limits_example :
    run_options system strtoul
      ((true, setting rlimit_core (49 ∷ 50 ∷ []))
        ∷ (between ++ ((true, showing rlimit_core) ∷ (true, showing rlimit_fsize) ∷ [])))
      kept
    ≡ (
      setting_limit rlimit_core
          ∷ ((run_options system strtoul between
                (stored rlimit_core (record { rlim_cur = 2; rlim_max = 30 }) kept)).0
              ++ (limits rlimit_core 2 30 ∷ print_resource_limit system rlimit_fsize kept)),
      stored rlimit_core (record { rlim_cur = 2; rlim_max = 30 }) kept,
    )
run_options_limits_example =
    run_options_limits system strtoul rlimit_core (49 ∷ 50 ∷ []) 2
      (record { rlim_cur = 0; rlim_max = 30 }) kept
      (stored rlimit_core (record { rlim_cur = 2; rlim_max = 30 }) kept) between true true true
      system-KeepsLimits valid refl refl (refl, tt)

-- A group that cannot be set, and an option without its argument.
failures :
    run_options system strtoul
      ((true, record { opt = letter_s; optarg = []; optopt = 0 })
        ∷ (true, record { opt = colon; optarg = []; optopt = 86 })
        ∷ [])
      kept
    ≡ (setting_group ∷ failure ∷ missing_argument 86 ∷ [], kept)
unfolding run_options run_option set_process_group
failures = refl
