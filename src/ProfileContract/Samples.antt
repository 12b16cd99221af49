-- ===== src/ProfileContract/Samples.antt =====
-- Small profiles, and the theorems at them.
use msys_core.Common.{◌≡◌, ◌↔◌, ◌≤◌, true}
use msys_core.Common.Int.{pos}
use msys_core.Common.Result.{ok}
use msys_core.Common.Text.{codes, text_eq}
use msys_core.ProfileContract.Checks.{json_value}
use msys_core.ProfileContract.Nesting.{nesting, is_json, json_value_iff}
use msys_core.Value.{Value, null, str, int, list, dict, nil, cons, field, end}

abbrev settings : Value
settings = dict (field (str (codes "volume")) (list (cons (int (pos 3)) (cons null nil))) end)

json_value_iff_example :
    (json_value 0 settings ≡ ok tt) ↔ ((nesting settings ≤ 64) × (is_json settings ≡ true))
json_value_iff_example = json_value_iff settings

abbrev startup : Value
startup = list (cons (str (codes "shell:main")) nil)
