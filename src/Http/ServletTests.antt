-- ===== src/Http/ServletTests.antt =====
-- A dispatcher with a servlet and two patterns, and the theorem on what paths are matched with.
use phase.Base.{ℕ, ◌≡◌, refl, Bool, true, false, none, some, List, [], ◌∷◌, if◌then◌else◌}
use phase.Http.Codes.{same_bytes}
use phase.Http.Servlets.{
  ServletCreator, ServletDispatch, function_servlet, hold_servlet, creator_get, entry, without,
  add_servlet_creator, add_glob_servlet_creator, del_servlet, del_glob_servlet, get_servlet,
  first_glob, get_matched_servlet,
}
use phase.Http.ServletLaws.{IsValid, matched_after}

-- A pattern matches every path that it begins.
abbrev begins : List ℕ → List ℕ → Bool
begins [] uri = true
begins (c ∷ k) [] = false
begins (c ∷ k) (d ∷ uri) = begins k uri

abbrev dispatch : ServletDispatch
dispatch = record {
  datas = (47 ∷ [], hold_servlet (function_servlet 1)) ∷ [];
  globs = (47 ∷ 97 ∷ [], hold_servlet (function_servlet 2)) ∷ [];
  fallback = none;
}

dispatch-IsValid : IsValid dispatch
unfolding entry
dispatch-IsValid = ((refl, tt), (refl, tt))

abbrev other : ServletCreator
other = hold_servlet (function_servlet 3)

-- The path is the uri itself in the first two parts, and the pattern is deleted in the last two.
matched_after_example :
    (get_matched_servlet begins (add_servlet_creator dispatch (47 ∷ 97 ∷ []) other) (47 ∷ 97 ∷ [])
      ≡ (if same_bytes (47 ∷ 97 ∷ []) (47 ∷ 97 ∷ [])
          then some (creator_get other)
          else get_matched_servlet begins dispatch (47 ∷ 97 ∷ [])))
    × (get_matched_servlet begins (del_servlet dispatch (47 ∷ 97 ∷ [])) (47 ∷ 97 ∷ []) ≡ (
        if same_bytes (47 ∷ 97 ∷ []) (47 ∷ 97 ∷ [])
        then get_matched_servlet begins (record dispatch { datas = [] }) (47 ∷ 97 ∷ [])
        else get_matched_servlet begins dispatch (47 ∷ 97 ∷ [])))
    × (get_matched_servlet begins
          (add_glob_servlet_creator dispatch (47 ∷ 97 ∷ []) other)
          (47 ∷ 97 ∷ [])
        ≡ (elim (get_servlet dispatch (47 ∷ 97 ∷ [])) [
          | some slt ↦ some slt
          | none ↦ elim (first_glob begins (47 ∷ 97 ∷ []) (without (47 ∷ 97 ∷ []) dispatch.globs)) [
            | some c ↦ some (creator_get c)
            | none ↦
                if begins (47 ∷ 97 ∷ []) (47 ∷ 97 ∷ [])
                then some (creator_get other)
                else dispatch.fallback
          ]
        ]))
    × (get_matched_servlet begins (del_glob_servlet dispatch (47 ∷ 97 ∷ [])) (47 ∷ 97 ∷ [])
        ≡ (elim (get_servlet dispatch (47 ∷ 97 ∷ [])) [
          | some slt ↦ some slt
          | none ↦ elim (first_glob begins (47 ∷ 97 ∷ []) (without (47 ∷ 97 ∷ []) dispatch.globs)) [
            | some c ↦ some (creator_get c)
            | none ↦ dispatch.fallback
          ]
        ]))
    × (entry (47 ∷ 97 ∷ []) (without (47 ∷ 97 ∷ []) dispatch.globs) ≡ (
        if same_bytes (47 ∷ 97 ∷ []) (47 ∷ 97 ∷ [])
        then none
        else entry (47 ∷ 97 ∷ []) dispatch.globs))
matched_after_example =
    matched_after begins dispatch (47 ∷ 97 ∷ []) (47 ∷ 97 ∷ []) (47 ∷ 97 ∷ []) other
      dispatch-IsValid
