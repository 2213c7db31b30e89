-- ===== src/Programs/YurtRun/ConfigFile.antt =====
-- cmd/yurt-run/main.go: the flag -config-file.
use yurt.Prelude.{◌≡◌, refl, String, false, List, [], ◌∷◌, arith, str_eq, split, split-ne-nil}
use yurt.Effects.{err, message}
use yurt.Programs.YurtRun.{
  Flags, Event, Host, flag_config, is_empty, no_args_given, choose_config, main,
}

is_empty-false : (l : List String) → (l ≡ [] → ⊥) → is_empty l ≡ false
is_empty-false [] h = absurd (h refl)
is_empty-false (x ∷ l) h = refl

no_args_given-false : (f : Flags) → no_args_given (flag_config f) ≡ false
unfolding no_args_given
no_args_given-false f =
    ground (arith, is_empty-false (split f.consul_ips ",") (split-ne-nil f.consul_ips ","))

-- With the flag -config-file the program always ends with the error that other arguments were given,
-- also when they were not, and it does nothing else.
pub main-config_file :
    (w : Host) (f : Flags) (h : List Event)
    → str_eq f.config_file "" ≡ false
    → main w f h ≡ (err (message "cannot provide other arguments along with -config-file"), h)
unfolding main choose_config
main-config_file w f h given = ground (arith, no_args_given-false f)
