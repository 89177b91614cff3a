-- ===== src/Log/Levels.antt =====
-- LogLevel of src/log/LogLevel.cc. A level is its number.
use phase.Base.{ℕ, zero, suc, ◌+◌, ◌≤◌, ◌≡◌, refl, List, [], ◌∷◌, ◌==◌, if◌then◌else◌, map, arith}
use phase.Log.Loggers.{same_text}

abbrev debug_name : List ℕ
debug_name = 68 ∷ 69 ∷ 66 ∷ 85 ∷ 71 ∷ []

abbrev info_name : List ℕ
info_name = 73 ∷ 78 ∷ 70 ∷ 79 ∷ []

abbrev warn_name : List ℕ
warn_name = 87 ∷ 65 ∷ 82 ∷ 78 ∷ []

abbrev error_name : List ℕ
error_name = 69 ∷ 82 ∷ 82 ∷ 79 ∷ 82 ∷ []

abbrev fatal_name : List ℕ
fatal_name = 70 ∷ 65 ∷ 84 ∷ 65 ∷ 76 ∷ []

-- "UNKNOW".
abbrev unknow_name : List ℕ
unknow_name = 85 ∷ 78 ∷ 75 ∷ 78 ∷ 79 ∷ 87 ∷ []

-- The name in small letters.
abbrev in_small : List ℕ → List ℕ
in_small name = map (λ c. c + 32) name

unfoldable level_to_string : ℕ → List ℕ
level_to_string level =
    if level == 1
    then debug_name
    else if level == 2
    then info_name
    else if level == 3
    then warn_name
    else if level == 4
    then error_name
    else if level == 5
    then fatal_name
    else unknow_name

unfoldable level_from_string : List ℕ → ℕ
level_from_string str =
    if same_text str (in_small debug_name)
    then 1
    else if same_text str (in_small info_name)
    then 2
    else if same_text str (in_small warn_name)
    then 3
    else if same_text str (in_small error_name)
    then 4
    else if same_text str (in_small fatal_name)
    then 5
    else if same_text str debug_name
    then 1
    else if same_text str info_name
    then 2
    else if same_text str warn_name
    then 3
    else if same_text str error_name
    then 4
    else if same_text str fatal_name
    then 5
    else 0

-- The six levels are read back from their names.
level_from_string-level_to_string :
    (level : ℕ) → level ≤ 5 → level_from_string (level_to_string level) ≡ level
unfolding level_from_string level_to_string
level_from_string-level_to_string zero h = refl
level_from_string-level_to_string (suc zero) h = refl
level_from_string-level_to_string (suc (suc zero)) h = refl
level_from_string-level_to_string (suc (suc (suc zero))) h = refl
level_from_string-level_to_string (suc (suc (suc (suc zero)))) h = refl
level_from_string-level_to_string (suc (suc (suc (suc (suc zero))))) h = refl
level_from_string-level_to_string (suc (suc (suc (suc (suc (suc n)))))) h = absurd (omega arith)
