-- ===== src/Attributes/Limits.antt =====
-- What the options change and what they only print.
use os_tasks.Prelude.{
  ℕ, ◌≡◌, refl, sym, ap, ◌∙◌, arith, Bool, false, some, List, [], ◌∷◌, ◌++◌, append_assoc,
  append-nil, ◌==◌, ◌||◌,
}
use mathlib.Core.Path.{ap₂}
use os_tasks.Attributes.{
  Resource, rlimit_fsize, rlimit_core, Limit, System, Line, setting_limit, limits, Number,
  str_to_rlim, Opt, letter_s, letter_u, letter_U, letter_c, letter_C, letter_V,
  print_resource_limit, set_resource_limit, limit_option, run_option, run_options,
}

abbrev may_change : ℕ → Bool
may_change c = (c == letter_s) || ((c == letter_U) || ((c == letter_C) || (c == letter_V)))

abbrev pub OnlyPrints : List (Bool × Opt) → Type 0
OnlyPrints [] = Unit
OnlyPrints ((copied, o) ∷ opts) = (may_change o.opt ≡ false) × OnlyPrints opts

abbrev pub other_than : Resource → Resource
other_than rlimit_fsize = rlimit_core
other_than rlimit_core = rlimit_fsize

-- The options that set a limit and that print it.
abbrev pub setting : Resource → List ℕ → Opt
setting rlimit_fsize arg = record { opt = letter_U; optarg = arg; optopt = 0 }
setting rlimit_core arg = record { opt = letter_C; optarg = arg; optopt = 0 }

abbrev pub showing : Resource → Opt
showing rlimit_fsize = record { opt = letter_u; optarg = []; optopt = 0 }
showing rlimit_core = record { opt = letter_c; optarg = []; optopt = 0 }

-- A limit that was set is the one that is there then, and the other one stays.
pub record KeepsLimits {S : Type 0} (sys : System S) : Type 0 where
  pub set_get :
      (res : Resource) (lim : Limit) (s s' : S)
      → sys.setrlimit res lim s ≡ some s'
      → sys.getrlimit res s' ≡ some lim
  pub set_other :
      (res : Resource) (lim : Limit) (s s' : S)
      → sys.setrlimit res lim s ≡ some s'
      → sys.getrlimit (other_than res) s' ≡ sys.getrlimit (other_than res) s

module _ {S : Type 0} (sys : System S) (strtoul : List ℕ → Number) where
  run_option_keeps :
      (copied : Bool) (o : Opt) (s : S)
      → may_change o.opt ≡ false
      → (run_option sys strtoul copied o s).1 ≡ s
  unfolding run_option
  run_option_keeps copied o s e = ground (arith, e)

  run_options_keeps :
      (opts : List (Bool × Opt)) (s : S) → OnlyPrints opts → (run_options sys strtoul opts s).1 ≡ s
  unfolding run_options
  run_options_keeps [] s h = refl
  run_options_keeps ((copied, o) ∷ opts) s (h, hs) =
      ap (λ s. (run_options sys strtoul opts s).1) (run_option_keeps copied o s h)
      ∙ run_options_keeps opts s hs

  setting_run :
      (res : Resource) (copied : Bool) (arg : List ℕ) (s : S)
      → run_option sys strtoul copied (setting res arg) s ≡ limit_option sys strtoul res arg s
  unfolding run_option
  setting_run rlimit_fsize copied arg s = refl
  setting_run rlimit_core copied arg s = refl

  showing_run :
      (res : Resource) (copied : Bool) (s : S)
      → run_option sys strtoul copied (showing res) s ≡ (print_resource_limit sys res s, s)
  unfolding run_option
  showing_run rlimit_fsize copied s = refl
  showing_run rlimit_core copied s = refl

  set_run :
      (res : Resource) (arg : List ℕ) (val : ℕ) (lim : Limit) (s s' : S)
      → str_to_rlim strtoul arg ≡ some val
      → sys.getrlimit res s ≡ some lim
      → sys.setrlimit res (record lim { rlim_cur = val }) s ≡ some s'
      → limit_option sys strtoul res arg s ≡ (setting_limit res ∷ [], s')
  unfolding limit_option set_resource_limit
  set_run res arg val lim s s' e f g = rw (limit_option, e, set_resource_limit, f, g) refl

  shown :
      (res : Resource) (lim : Limit) (s : S)
      → sys.getrlimit res s ≡ some lim
      → print_resource_limit sys res s ≡ limits res lim.rlim_cur lim.rlim_max ∷ []
  unfolding print_resource_limit
  shown res lim s e = rw (print_resource_limit, e) refl

  shown_same :
      (res : Resource) (s s' : S)
      → sys.getrlimit res s' ≡ sys.getrlimit res s
      → print_resource_limit sys res s' ≡ print_resource_limit sys res s
  unfolding print_resource_limit
  shown_same res s s' e = rw (print_resource_limit, e) refl

  run_options-append :
      (xs ys : List (Bool × Opt)) (s : S)
      → run_options sys strtoul (xs ++ ys) s ≡ (
        (run_options sys strtoul xs s).0
            ++ (run_options sys strtoul ys (run_options sys strtoul xs s).1).0,
        (run_options sys strtoul ys (run_options sys strtoul xs s).1).1,
      )
  unfolding run_options
  run_options-append [] ys s = refl
  run_options-append ((copied, o) ∷ xs) ys s =
      let s1 = (run_option sys strtoul copied o s).1 in
      let lines = (run_option sys strtoul copied o s).0 in
      rw (run_options-append xs ys s1) (
        ap
          (λ (l : List Line). (l, (run_options sys strtoul ys (run_options sys strtoul xs s1).1).1))
          (sym (
            append_assoc lines (run_options sys strtoul xs s1).0
              (run_options sys strtoul ys (run_options sys strtoul xs s1).1).0)))

  -- The two limits are printed.
  both_shown :
      (res : Resource) (c1 c2 : Bool) (s : S)
      → run_options sys strtoul ((c1, showing res) ∷ (c2, showing (other_than res)) ∷ []) s
        ≡ (print_resource_limit sys res s ++ (print_resource_limit sys (other_than res) s ++ []), s)
  unfolding run_options
  both_shown res c1 c2 s = rw (showing_run res c1 s, showing_run (other_than res) c2 s) refl

  -- A first option, by what it does.
  first_run :
      (copied : Bool) (o : Opt) (opts : List (Bool × Opt)) (s s' : S) (lines : List Line)
      → run_option sys strtoul copied o s ≡ (lines, s')
      → run_options sys strtoul ((copied, o) ∷ opts) s
        ≡ (lines ++ (run_options sys strtoul opts s').0, (run_options sys strtoul opts s').1)
  unfolding run_options
  first_run copied o opts s s' lines e = rw e refl

  -- If the system keeps the limits apart, and an option sets the soft limit of one resource to a number
  -- that is valid: after any options that only print, this limit is printed with the new soft
  -- value and the old hard one, the other resource's limit as it was at the start, and the state
  -- at the end is the one that `setrlimit` has left.
  pub run_options_limits :
      (res : Resource) (arg : List ℕ) (val : ℕ) (lim : Limit) (s s' : S) (opts : List (Bool × Opt))
      (c c1 c2 : Bool)
      → KeepsLimits sys
      → str_to_rlim strtoul arg ≡ some val
      → sys.getrlimit res s ≡ some lim
      → sys.setrlimit res (record lim { rlim_cur = val }) s ≡ some s'
      → OnlyPrints opts
      → run_options sys strtoul
          ((c, setting res arg)
            ∷ (opts ++ ((c1, showing res) ∷ (c2, showing (other_than res)) ∷ [])))
          s
        ≡ (
          setting_limit res
              ∷ ((run_options sys strtoul opts s').0
                  ++ (limits res val lim.rlim_max ∷ print_resource_limit sys (other_than res) s)),
          s',
        )
  run_options_limits res arg val lim s s' opts c c1 c2 laws valid old new only =
      let tail : List (Bool × Opt) = (c1, showing res) ∷ (c2, showing (other_than res)) ∷ [] in
      let kept = run_options_keeps opts s' only in
      let last =
        both_shown res c1 c2 s'
        ∙ ap (λ (l : List Line). (l, s'))
            (ap₂ (λ (x y : List Line). x ++ y)
              (shown res (record lim { rlim_cur = val }) s'
                (laws.set_get res (record lim { rlim_cur = val }) s s' new))
              (append-nil (print_resource_limit sys (other_than res) s')
                ∙ shown_same (other_than res) s s'
                    (laws.set_other res (record lim { rlim_cur = val }) s s' new))) in
      let after =
        run_options-append opts tail s'
        ∙ ap
            (λ t. (
              (run_options sys strtoul opts s').0 ++ (run_options sys strtoul tail t).0,
              (run_options sys strtoul tail t).1,
            ))
            kept
        ∙ ap (λ (r : List Line × S). ((run_options sys strtoul opts s').0 ++ r.0, r.1)) last in
      first_run c (setting res arg) (opts ++ tail) s s' (setting_limit res ∷ [])
        (setting_run res c arg s ∙ set_run res arg val lim s s' valid old new)
      ∙ ap (λ (r : List Line × S). (setting_limit res ∷ r.0, r.1)) after
