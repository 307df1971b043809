-- ===== src/SizeClass/Tests.antt =====
-- Runs of find_run_config, as in the repository's tests, and the theorems at a size and a class.
use shmmalloc.Base.{ℕ, ◌≤◌, ◌<◌, ◌≡◌, refl, arith, some, none}
use shmmalloc.SizeClass.{
  run_config_size, lookup_class, find_run_config, class_elemsize, find_run_config_best_fit, IsCut,
  class_total-IsCut,
}

found :
    (find_run_config 12 ≡ some 2) × (find_run_config 1025 ≡ some 13) × (find_run_config 0 ≡ none)
unfolding find_run_config lookup_class
found = (refl, refl, refl)

found_sizes : (class_elemsize 2 ≡ 16) × (class_elemsize 13 ≡ 1280)
unfolding class_elemsize
found_sizes = (refl, refl)

find_run_config_best_fit_example :
    (type : ℕ) × (find_run_config 1025 ≡ some type)
    × (0 < type)
    × (type < run_config_size)
    × (1025 ≤ class_elemsize type)
    × ((j : ℕ) → j < type → class_elemsize j < 1025)
find_run_config_best_fit_example = find_run_config_best_fit 1025 (omega arith) (omega arith)

class_total-IsCut_example : IsCut 13
class_total-IsCut_example = class_total-IsCut 13 (omega arith) (omega arith)
